-- ===== src/Codegen/Traced/Kernel/Syscalls.antt =====
-- The handlers of codegen.py push and pop in balance: Kernel/Syscalls.
use aclmv.Prelude.{ℕ}
use aclmv.Ast.Kernel
use aclmv.Codegen.Kernel.Syscalls
use aclmv.Codegen.Traced.{Traced, traced_rules}

pub Traced-kernel_syscall_init : {d : ℕ} → Traced d Syscalls.kernel_syscall_init d
unfolding Syscalls.kernel_syscall_init
Traced-kernel_syscall_init = search traced_rules depth 120 fits 4000

pub Traced-kernel_syscall_table_init : {d : ℕ} → Traced d Syscalls.kernel_syscall_table_init d
unfolding Syscalls.kernel_syscall_table_init
Traced-kernel_syscall_table_init = search traced_rules depth 120 fits 4000

pub Traced-kernel_syscall_register :
    {d : ℕ} (s : Kernel.KernelSyscallRegister) → Traced d (Syscalls.kernel_syscall_register s) d
unfolding Syscalls.kernel_syscall_register
Traced-kernel_syscall_register s = search traced_rules depth 120 fits 4000

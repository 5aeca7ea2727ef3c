-- ===== src/Codegen/Kernel/Syscalls.antt =====
-- ACLM/codegen.py: user mode and the system call table.
use aclmv.Prelude.{◌*◌, none, replicate}
use aclmv.Prelude.Int.{pos, wrap}
use aclmv.Ast.Kernel
use aclmv.Encoder.Call
use aclmv.Codegen.{Gen, ◌>>=◌, ◌>>◌, asm, new_label, reserve, once, lbl}
use aclmv.Codegen.Eval.{eval}

unfoldable pub kernel_enter_user : Kernel.KernelEnterUser → Gen (Unit {0})
kernel_enter_user s = do
  asm (Call.push_reg "rax")
  eval s.stack "rax"
  asm (Call.mov_reg_reg "rsp" "rax")
  asm (Call.mov_reg_imm64 "rax" (pos 35))
  asm (Call.push_reg "rax")
  eval s.stack "rax"
  asm (Call.push_reg "rax")
  asm (Call.mov_reg_imm64 "rax" (pos 0x202))
  asm (Call.push_reg "rax")
  asm (Call.mov_reg_imm64 "rax" (pos 27))
  asm (Call.push_reg "rax")
  eval s.entry "rax"
  asm (Call.push_reg "rax")
  asm Call.iretq

unfoldable pub kernel_syscall_init : Gen (Unit {0})
kernel_syscall_init = do
  once "_sysentry_emitted" (do
    asm (Call.jmp "__after_sysentry")
    asm (Call.label_here "__syscall_entry")
    asm Call.sysret
    asm (Call.label_here "__after_sysentry"))
  asm (Call.push_reg "rax")
  asm (Call.push_reg "rcx")
  asm (Call.push_reg "rdx")
  asm (Call.mov_reg_imm64 "rcx" (pos 0xc0000080))
  asm Call.rdmsr
  asm (Call.or_reg_imm "rax" (pos 1))
  asm Call.wrmsr
  asm (Call.mov_reg_imm64 "rcx" (pos 0xc0000081))
  asm (Call.mov_reg_imm64 "rax" (pos 0))
  asm (Call.mov_reg_imm64 "rdx" (pos 0x1b0008))
  asm (Call.mov_reg_imm64 "rdx" (pos 0x1b0008))
  asm (Call.xor_reg_reg "rax" "rax")
  asm Call.wrmsr
  asm (Call.mov_reg_imm64 "rcx" (pos 0xc0000082))
  asm (Call.lea_reg_label "rax" "__syscall_entry")
  asm (Call.mov_reg_reg "rdx" "rax")
  asm (Call.shr_reg_imm8 "rdx" (pos 32))
  asm Call.wrmsr
  asm (Call.mov_reg_imm64 "rcx" (pos 0xc0000084))
  asm (Call.mov_reg_imm64 "rax" (pos 0x200))
  asm (Call.xor_reg_reg "rdx" "rdx")
  asm Call.wrmsr
  asm (Call.pop_reg "rdx")
  asm (Call.pop_reg "rcx")
  asm (Call.pop_reg "rax")

unfoldable pub kernel_syscall_table_init : Gen (Unit {0})
kernel_syscall_table_init = do
  reserve "__systab" (replicate 0x200 0)
  once "_nosys_emitted" (do
    asm (Call.jmp "__after_nosys")
    asm (Call.label_here "__nosys")
    asm (Call.mov_reg_imm64 "rax" (pos 0xffffffffffffffff))
    asm Call.sysret
    asm (Call.label_here "__after_nosys"))
  asm (Call.push_reg "rax")
  asm (Call.push_reg "rcx")
  asm (Call.push_reg "rdi")
  asm (Call.lea_reg_label "rax" "__nosys")
  asm (Call.lea_reg_label "rdi" "__data___systab")
  asm (Call.mov_reg_imm64 "rcx" (pos 0x40))
  loop ← new_label "sti"
  asm (Call.label_here loop)
  asm (Call.mov_mem_reg "rdi" (pos 0) "rax" none 1)
  asm (Call.add_reg_imm "rdi" (pos 8))
  asm (Call.sub_reg_imm "rcx" (pos 1))
  asm (Call.test_reg_reg "rcx" "rcx")
  asm (Call.jcc "neq" loop)
  asm (Call.pop_reg "rdi")
  asm (Call.pop_reg "rcx")
  asm (Call.pop_reg "rax")
  once "_sysdispatch_emitted" (do
    asm (Call.jmp "__after_sysdispatch")
    asm (Call.label_here "__syscall_dispatch")
    asm (Call.push_reg "rbx")
    asm (Call.mov_reg_reg "rbx" "rax")
    asm (Call.and_reg_imm "rbx" (pos 63))
    asm (Call.lea_reg_label "rax" "__data___systab")
    asm (Call.shl_reg_imm8 "rbx" (pos 3))
    asm (Call.add_reg_reg "rax" "rbx")
    asm (Call.mov_reg_mem "rax" "rax" (pos 0) none 1)
    asm (Call.call_reg "rax")
    asm (Call.pop_reg "rbx")
    asm Call.sysret
    asm (Call.label_here "__after_sysdispatch"))
  asm (Call.push_reg "rax")
  asm (Call.push_reg "rcx")
  asm (Call.push_reg "rdx")
  asm (Call.mov_reg_imm64 "rcx" (pos 0xc0000082))
  asm (Call.lea_reg_label "rax" "__syscall_dispatch")
  asm (Call.mov_reg_reg "rdx" "rax")
  asm (Call.shr_reg_imm8 "rdx" (pos 32))
  asm Call.wrmsr
  asm (Call.pop_reg "rdx")
  asm (Call.pop_reg "rcx")
  asm (Call.pop_reg "rax")

unfoldable pub kernel_syscall_register : Kernel.KernelSyscallRegister → Gen (Unit {0})
kernel_syscall_register s = do
  reserve "__systab" (replicate 0x200 0)
  asm (Call.push_reg "rax")
  asm (Call.push_reg "rdi")
  asm (Call.lea_reg_label "rax" (lbl s.handler))
  asm (Call.lea_reg_label "rdi" "__data___systab")
  asm (Call.add_reg_imm "rdi" (pos (wrap 64 s.nr * 8)))
  asm (Call.mov_mem_reg "rdi" (pos 0) "rax" none 1)
  asm (Call.pop_reg "rdi")
  asm (Call.pop_reg "rax")

-- ===== src/Codegen/Traced/Kernel/Ramfs.antt =====
-- The handlers of codegen.py push and pop in balance: Kernel/Ramfs.
use aclmv.Prelude.{ℕ}
use aclmv.Ast.Kernel
use aclmv.Codegen.Kernel.Ramfs
use aclmv.Codegen.Traced.{Traced, traced_rules}
use aclmv.Codegen.Traced.Eval.{Traced-eval}

pub Traced-kernel_ramfs_init : {d : ℕ} → Traced d Ramfs.kernel_ramfs_init d
unfolding Ramfs.kernel_ramfs_init
Traced-kernel_ramfs_init = search traced_rules depth 120 fits 4000

pub Traced-kernel_ramfs_put :
    {d : ℕ} (s : Kernel.KernelRamfsPut) → Traced d (Ramfs.kernel_ramfs_put s) d
unfolding Ramfs.kernel_ramfs_put
Traced-kernel_ramfs_put s = search (traced_rules, Traced-eval) depth 120 fits 4000

pub Traced-kernel_ramfs_get :
    {d : ℕ} (s : Kernel.KernelRamfsGet) → Traced d (Ramfs.kernel_ramfs_get s) d
unfolding Ramfs.kernel_ramfs_get
Traced-kernel_ramfs_get s = search (traced_rules, Traced-eval) depth 120 fits 4000

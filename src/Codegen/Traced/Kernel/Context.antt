-- ===== src/Codegen/Traced/Kernel/Context.antt =====
-- The handlers of codegen.py push and pop in balance: Kernel/Context.
use aclmv.Prelude.{ℕ}
use aclmv.Ast.Kernel
use aclmv.Codegen.Kernel.Context
use aclmv.Codegen.Traced.{Traced, Traced-for_each, traced_rules}

pub Traced-kernel_ctx_save :
    {d : ℕ} (s : Kernel.KernelCtxSave) → Traced d (Context.kernel_ctx_save s) d
unfolding Context.kernel_ctx_save
Traced-kernel_ctx_save s = search (traced_rules, Traced-for_each) depth 20

pub Traced-kernel_ctx_load :
    {d : ℕ} (s : Kernel.KernelCtxLoad) → Traced d (Context.kernel_ctx_load s) d
unfolding Context.kernel_ctx_load
Traced-kernel_ctx_load s = search (traced_rules, Traced-for_each) depth 20

pub Traced-kernel_coop_switch :
    {d : ℕ} (s : Kernel.KernelCoopSwitch) → Traced d (Context.kernel_coop_switch s) d
unfolding Context.kernel_coop_switch
Traced-kernel_coop_switch s =
    search (traced_rules, Traced-kernel_ctx_save, Traced-kernel_ctx_load) depth 120 fits 4000

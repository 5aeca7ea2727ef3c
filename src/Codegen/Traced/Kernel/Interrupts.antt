-- ===== src/Codegen/Traced/Kernel/Interrupts.antt =====
-- The handlers of codegen.py push and pop in balance: Kernel/Interrupts.
use aclmv.Prelude.{ℕ, String}
use aclmv.Prelude.Int.{ℤ}
use aclmv.Ast.Kernel
use aclmv.Codegen.Kernel.Interrupts
use aclmv.Codegen.Traced.{Traced, traced_rules}

pub Traced-fill_gate : {d : ℕ} → Traced d Interrupts.fill_gate d
unfolding Interrupts.fill_gate
Traced-fill_gate = search traced_rules depth 120 fits 4000

pub Traced-patch_gate : {d : ℕ} (a0 : String) (a1 : ℤ) → Traced d (Interrupts.patch_gate a0 a1) d
unfolding Interrupts.patch_gate
Traced-patch_gate a0 a1 = search (traced_rules, Traced-fill_gate) depth 120 fits 4000

pub Traced-kernel_idt_install : {d : ℕ} → Traced d Interrupts.kernel_idt_install d
unfolding Interrupts.kernel_idt_install
Traced-kernel_idt_install = search (traced_rules, Traced-fill_gate) depth 120 fits 4000

pub Traced-kernel_tick_install : {d : ℕ} → Traced d Interrupts.kernel_tick_install d
unfolding Interrupts.kernel_tick_install
Traced-kernel_tick_install = search (traced_rules, Traced-patch_gate) depth 120 fits 4000

pub Traced-kernel_tick_read :
    {d : ℕ} (s : Kernel.KernelTickRead) → Traced d (Interrupts.kernel_tick_read s) d
unfolding Interrupts.kernel_tick_read
Traced-kernel_tick_read s = search traced_rules depth 120 fits 4000

pub Traced-kernel_pf_install : {d : ℕ} → Traced d Interrupts.kernel_pf_install d
unfolding Interrupts.kernel_pf_install
Traced-kernel_pf_install = search (traced_rules, Traced-patch_gate) depth 120 fits 4000

pub Traced-kernel_nmi_install : {d : ℕ} → Traced d Interrupts.kernel_nmi_install d
unfolding Interrupts.kernel_nmi_install
Traced-kernel_nmi_install = search (traced_rules, Traced-patch_gate) depth 120 fits 4000

pub Traced-kernel_irq_full_save_on : {d : ℕ} → Traced d Interrupts.kernel_irq_full_save_on d
unfolding Interrupts.kernel_irq_full_save_on
Traced-kernel_irq_full_save_on = search (traced_rules, Traced-patch_gate) depth 120 fits 4000

-- ===== src/Codegen/Traced/Kernel/Serial.antt =====
-- The handlers of codegen.py push and pop in balance: Kernel/Serial.
use aclmv.Prelude.{ℕ}
use aclmv.Ast.Kernel
use aclmv.Codegen.Kernel.Serial
use aclmv.Codegen.Traced.{Traced, Traced-for_each, traced_rules}
use aclmv.Codegen.Traced.Eval.{Traced-eval}

pub Traced-pic_remap : {d : ℕ} → Traced d Serial.pic_remap d
unfolding Serial.pic_remap
Traced-pic_remap = search (traced_rules, Traced-for_each) depth 20

pub Traced-serial_init : {d : ℕ} → Traced d Serial.serial_init d
unfolding Serial.serial_init
Traced-serial_init = search traced_rules depth 120 fits 4000

pub Traced-serial_putc : {d : ℕ} (s : Kernel.ChipSerialPutc) → Traced d (Serial.serial_putc s) d
unfolding Serial.serial_putc
Traced-serial_putc s = search (traced_rules, Traced-eval) depth 120 fits 4000

pub Traced-kbd_poll : {d : ℕ} (s : Kernel.ChipKbdPoll) → Traced d (Serial.kbd_poll s) d
unfolding Serial.kbd_poll
Traced-kbd_poll s = search traced_rules depth 120 fits 4000

pub Traced-pit_init : {d : ℕ} (s : Kernel.ChipPitInit) → Traced d (Serial.pit_init s) d
unfolding Serial.pit_init
Traced-pit_init s = search traced_rules depth 120 fits 4000

pub Traced-kernel_printk_str :
    {d : ℕ} (s : Kernel.KernelPrintkStr) → Traced d (Serial.kernel_printk_str s) d
unfolding Serial.kernel_printk_str
Traced-kernel_printk_str s = search (traced_rules, Traced-eval) depth 120 fits 4000

pub Traced-kernel_panic : {d : ℕ} → Traced d Serial.kernel_panic d
unfolding Serial.kernel_panic
Traced-kernel_panic = search traced_rules depth 120 fits 4000

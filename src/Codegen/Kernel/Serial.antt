-- ===== src/Codegen/Kernel/Serial.antt =====
-- ACLM/codegen.py: the serial port, the keyboard, the timer and the panic.
use aclmv.Prelude.{◌/◌, ◌%◌, none, List, [], ◌∷◌}
use aclmv.Prelude.Int.{ℤ, pos}
use aclmv.Ast.Kernel
use aclmv.Encoder.Call
use aclmv.Codegen.{Gen, ◌>>=◌, ◌>>◌, asm, for_each, resolve_name, move_unless, new_label}
use aclmv.Codegen.Eval.{eval}

abbrev pic_sequence : List (ℤ × ℤ)
pic_sequence =
    (pos 0x20, pos 0x11)
    ∷ (pos 0xa0, pos 0x11)
    ∷ (pos 0x21, pos 0x20)
    ∷ (pos 0xa1, pos 0x28)
    ∷ (pos 0x21, pos 4)
    ∷ (pos 0xa1, pos 2)
    ∷ (pos 0x21, pos 1)
    ∷ (pos 0xa1, pos 1)
    ∷ (pos 0x21, pos 0)
    ∷ (pos 0xa1, pos 0)
    ∷ []

unfoldable pub pic_remap : Gen (Unit {0})
pic_remap = do
  asm (Call.push_reg "rax")
  asm (Call.push_reg "rdx")
  for_each pic_sequence λ p. do
    asm (Call.mov_reg_imm64 "rdx" p.0)
    asm (Call.mov_reg_imm64 "rax" p.1)
    asm Call.out_dx_al
  asm (Call.pop_reg "rdx")
  asm (Call.pop_reg "rax")

unfoldable pub serial_init : Gen (Unit {0})
serial_init = do
  asm (Call.push_reg "rax")
  asm (Call.push_reg "rdx")
  asm (Call.mov_reg_imm64 "rdx" (pos 0x3f9))
  asm (Call.xor_reg_reg "rax" "rax")
  asm Call.out_dx_al
  asm (Call.mov_reg_imm64 "rdx" (pos 0x3fb))
  asm (Call.mov_reg_imm64 "rax" (pos 0x80))
  asm Call.out_dx_al
  asm (Call.mov_reg_imm64 "rdx" (pos 0x3f8))
  asm (Call.mov_reg_imm64 "rax" (pos 1))
  asm Call.out_dx_al
  asm (Call.mov_reg_imm64 "rdx" (pos 0x3f9))
  asm (Call.xor_reg_reg "rax" "rax")
  asm Call.out_dx_al
  asm (Call.mov_reg_imm64 "rdx" (pos 0x3fb))
  asm (Call.mov_reg_imm64 "rax" (pos 3))
  asm Call.out_dx_al
  asm (Call.mov_reg_imm64 "rdx" (pos 0x3fa))
  asm (Call.mov_reg_imm64 "rax" (pos 199))
  asm Call.out_dx_al
  asm (Call.mov_reg_imm64 "rdx" (pos 0x3fc))
  asm (Call.mov_reg_imm64 "rax" (pos 11))
  asm Call.out_dx_al
  asm (Call.pop_reg "rdx")
  asm (Call.pop_reg "rax")

unfoldable pub serial_putc : Kernel.ChipSerialPutc → Gen (Unit {0})
serial_putc s = do
  asm (Call.push_reg "rax")
  asm (Call.push_reg "rdx")
  eval s.value "rax"
  asm (Call.push_reg "rax")
  loop ← new_label "ser"
  asm (Call.label_here loop)
  asm (Call.mov_reg_imm64 "rdx" (pos 0x3fd))
  asm Call.in_al_dx
  asm (Call.and_reg_imm "rax" (pos 32))
  asm (Call.test_reg_reg "rax" "rax")
  asm (Call.jcc "eq" loop)
  asm (Call.pop_reg "rax")
  asm (Call.mov_reg_imm64 "rdx" (pos 0x3f8))
  asm Call.out_dx_al
  asm (Call.pop_reg "rdx")
  asm (Call.pop_reg "rax")

unfoldable pub kbd_poll : Kernel.ChipKbdPoll → Gen (Unit {0})
kbd_poll s = do
  dest ← resolve_name s.dest
  asm (Call.push_reg "rdx")
  asm (Call.mov_reg_imm64 "rdx" (pos 100))
  asm Call.in_al_dx
  asm (Call.and_reg_imm "rax" (pos 1))
  asm (Call.test_reg_reg "rax" "rax")
  ok ← new_label "kbdok"
  done ← new_label "kbdd"
  asm (Call.jcc "neq" ok)
  asm (Call.xor_reg_reg dest dest)
  asm (Call.jmp done)
  asm (Call.label_here ok)
  asm (Call.mov_reg_imm64 "rdx" (pos 96))
  asm Call.in_al_dx
  move_unless dest "rax"
  asm (Call.label_here done)
  asm (Call.pop_reg "rdx")

unfoldable pub pit_init : Kernel.ChipPitInit → Gen (Unit {0})
pit_init s = do
  let d = s.divisor % 0x10000
  asm (Call.push_reg "rax")
  asm (Call.push_reg "rdx")
  asm (Call.mov_reg_imm64 "rdx" (pos 67))
  asm (Call.mov_reg_imm64 "rax" (pos 54))
  asm Call.out_dx_al
  asm (Call.mov_reg_imm64 "rdx" (pos 0x40))
  asm (Call.mov_reg_imm64 "rax" (pos (d % 0x100)))
  asm Call.out_dx_al
  asm (Call.mov_reg_imm64 "rax" (pos (d / 0x100 % 0x100)))
  asm Call.out_dx_al
  asm (Call.pop_reg "rdx")
  asm (Call.pop_reg "rax")

unfoldable pub kernel_printk_str : Kernel.KernelPrintkStr → Gen (Unit {0})
kernel_printk_str s = do
  asm (Call.push_reg "r12")
  eval s.src "r12"
  loop ← new_label "pks"
  done ← new_label "pkd"
  asm (Call.label_here loop)
  asm (Call.mov8_reg_mem "r15" "r12" (pos 0) none 1)
  asm (Call.test_reg_reg "r15" "r15")
  asm (Call.jcc "eq" done)
  asm (Call.push_reg "rax")
  asm (Call.push_reg "rdx")
  asm (Call.mov_reg_reg "rax" "r15")
  asm (Call.push_reg "rax")
  wait ← new_label "pkw"
  asm (Call.label_here wait)
  asm (Call.mov_reg_imm64 "rdx" (pos 0x3fd))
  asm Call.in_al_dx
  asm (Call.and_reg_imm "rax" (pos 32))
  asm (Call.test_reg_reg "rax" "rax")
  asm (Call.jcc "eq" wait)
  asm (Call.pop_reg "rax")
  asm (Call.mov_reg_imm64 "rdx" (pos 0x3f8))
  asm Call.out_dx_al
  asm (Call.pop_reg "rdx")
  asm (Call.pop_reg "rax")
  asm (Call.add_reg_imm "r12" (pos 1))
  asm (Call.jmp loop)
  asm (Call.label_here done)
  asm (Call.pop_reg "r12")

unfoldable pub kernel_panic : Gen (Unit {0})
kernel_panic = do
  asm Call.cli
  asm (Call.mov_reg_imm64 "rax" (pos 80))
  asm (Call.push_reg "rax")
  asm (Call.mov_reg_imm64 "rdx" (pos 0x3f8))
  asm (Call.pop_reg "rax")
  asm Call.out_dx_al
  asm Call.hlt
  panic ← new_label "pan"
  asm (Call.label_here panic)
  asm Call.hlt
  asm (Call.jmp panic)

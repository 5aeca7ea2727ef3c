-- ===== src/Encoder/Arith.antt =====
-- ACLM/x64enc.py: the arithmetic and logic instructions on registers and immediates.
use aclmv.Prelude.{ℕ, ◌+◌, ◌%◌, String, [], ◌∷◌, ltb, if◌then◌else◌}
use aclmv.Prelude.Int.{ℤ}
use aclmv.Prelude.Bits.{shr}
use aclmv.Encoder.{u8, u32, s32, reg_num, rex, modrm, Asm, ◌>>=◌, ◌>>◌, lift, emit}

unfoldable pub binop_reg_reg : ℕ → String → String → Asm (Unit {0})
binop_reg_reg opcode dst src = do
  d ← lift (reg_num dst)
  s ← lift (reg_num src)
  emit (u8 (rex 1 (shr s 3) 0 (shr d 3)))
  emit (u8 opcode)
  emit (u8 (modrm 3 (s % 8) (d % 8)))

unfoldable pub add_reg_reg : String → String → Asm (Unit {0})
add_reg_reg dst src = binop_reg_reg 1 dst src

unfoldable pub sub_reg_reg : String → String → Asm (Unit {0})
sub_reg_reg dst src = binop_reg_reg 0x29 dst src

unfoldable pub and_reg_reg : String → String → Asm (Unit {0})
and_reg_reg dst src = binop_reg_reg 0x21 dst src

unfoldable pub or_reg_reg : String → String → Asm (Unit {0})
or_reg_reg dst src = binop_reg_reg 9 dst src

unfoldable pub xor_reg_reg : String → String → Asm (Unit {0})
xor_reg_reg dst src = binop_reg_reg 0x31 dst src

unfoldable pub cmp_reg_reg : String → String → Asm (Unit {0})
cmp_reg_reg a b = binop_reg_reg 0x39 a b

unfoldable pub test_reg_reg : String → String → Asm (Unit {0})
test_reg_reg a b = binop_reg_reg 0x85 a b

unfoldable pub adc_reg_reg : String → String → Asm (Unit {0})
adc_reg_reg dst src = binop_reg_reg 0x11 dst src

unfoldable pub sbb_reg_reg : String → String → Asm (Unit {0})
sbb_reg_reg dst src = binop_reg_reg 0x19 dst src

unfoldable pub binop_reg_imm32 : ℕ → String → ℤ → Asm (Unit {0})
binop_reg_imm32 ext dst imm = do
  d ← lift (reg_num dst)
  emit (u8 (rex 1 0 0 (shr d 3)))
  emit (u8 0x81)
  emit (u8 (modrm 3 ext (d % 8)))
  bytes ← lift (s32 imm)
  emit bytes

unfoldable pub add_reg_imm : String → ℤ → Asm (Unit {0})
add_reg_imm dst imm = binop_reg_imm32 0 dst imm

unfoldable pub sub_reg_imm : String → ℤ → Asm (Unit {0})
sub_reg_imm dst imm = binop_reg_imm32 5 dst imm

unfoldable pub and_reg_imm : String → ℤ → Asm (Unit {0})
and_reg_imm dst imm = binop_reg_imm32 4 dst imm

unfoldable pub or_reg_imm : String → ℤ → Asm (Unit {0})
or_reg_imm dst imm = binop_reg_imm32 1 dst imm

unfoldable pub xor_reg_imm : String → ℤ → Asm (Unit {0})
xor_reg_imm dst imm = binop_reg_imm32 6 dst imm

unfoldable pub cmp_reg_imm : String → ℤ → Asm (Unit {0})
cmp_reg_imm dst imm = binop_reg_imm32 7 dst imm

unfoldable pub imul_reg_reg : String → String → Asm (Unit {0})
imul_reg_reg dst src = do
  d ← lift (reg_num dst)
  s ← lift (reg_num src)
  emit (u8 (rex 1 (shr d 3) 0 (shr s 3)))
  emit (0x0f ∷ 0xaf ∷ [])
  emit (u8 (modrm 3 (d % 8) (s % 8)))

unfoldable pub idiv_reg : String → Asm (Unit {0})
idiv_reg src = do
  s ← lift (reg_num src)
  emit (u8 (rex 1 0 0 (shr s 3)))
  emit (u8 0xf7)
  emit (u8 (modrm 3 7 (s % 8)))

unfoldable pub cqo : Asm (Unit {0})
cqo = emit (0x48 ∷ 0x99 ∷ [])

unfoldable pub not_reg : String → Asm (Unit {0})
not_reg r = do
  rr ← lift (reg_num r)
  emit (u8 (rex 1 0 0 (shr rr 3)))
  emit (u8 0xf7)
  emit (u8 (modrm 3 2 (rr % 8)))

unfoldable pub neg_reg : String → Asm (Unit {0})
neg_reg r = do
  rr ← lift (reg_num r)
  emit (u8 (rex 1 0 0 (shr rr 3)))
  emit (u8 0xf7)
  emit (u8 (modrm 3 3 (rr % 8)))

unfoldable pub inc_reg : String → Asm (Unit {0})
inc_reg r = do
  rr ← lift (reg_num r)
  emit (u8 (rex 1 0 0 (shr rr 3)))
  emit (u8 0xff)
  emit (u8 (modrm 3 0 (rr % 8)))

unfoldable pub dec_reg : String → Asm (Unit {0})
dec_reg r = do
  rr ← lift (reg_num r)
  emit (u8 (rex 1 0 0 (shr rr 3)))
  emit (u8 0xff)
  emit (u8 (modrm 3 1 (rr % 8)))

unfoldable pub mul_reg : String → Asm (Unit {0})
mul_reg src = do
  s ← lift (reg_num src)
  emit (u8 (rex 1 0 0 (shr s 3)))
  emit (u8 0xf7)
  emit (u8 (modrm 3 4 (s % 8)))

unfoldable pub div_reg : String → Asm (Unit {0})
div_reg src = do
  s ← lift (reg_num src)
  emit (u8 (rex 1 0 0 (shr s 3)))
  emit (u8 0xf7)
  emit (u8 (modrm 3 6 (s % 8)))

unfoldable pub test_reg_imm32 : String → ℤ → Asm (Unit {0})
test_reg_imm32 dst imm = do
  d ← lift (reg_num dst)
  emit (u8 (rex 1 0 0 (shr d 3)))
  emit (u8 0xf7)
  emit (u8 (modrm 3 0 (d % 8)))
  emit (u32 imm)

unfoldable pub imul_reg_imm : String → ℤ → Asm (Unit {0})
imul_reg_imm dst imm = do
  d ← lift (reg_num dst)
  emit (u8 (rex 1 (shr d 3) 0 (shr d 3)))
  emit (u8 0x69)
  emit (u8 (modrm 3 (d % 8) (d % 8)))
  emit (u32 imm)

unfoldable pub imul_reg_reg_imm : String → String → ℤ → Asm (Unit {0})
imul_reg_reg_imm dst src imm = do
  d ← lift (reg_num dst)
  s ← lift (reg_num src)
  emit (u8 (rex 1 (shr d 3) 0 (shr s 3)))
  emit (u8 0x69)
  emit (u8 (modrm 3 (d % 8) (s % 8)))
  emit (u32 imm)

unfoldable pub xadd_reg_reg : String → String → Asm (Unit {0})
xadd_reg_reg dst src = do
  d ← lift (reg_num dst)
  s ← lift (reg_num src)
  emit (u8 (rex 1 (shr s 3) 0 (shr d 3)))
  emit (0x0f ∷ 0xc1 ∷ [])
  emit (u8 (modrm 3 (s % 8) (d % 8)))

unfoldable pub bswap_reg : String → Asm (Unit {0})
bswap_reg r = do
  n ← lift (reg_num r)
  emit (u8 (rex 1 0 0 (shr n 3)))
  emit (0x0f ∷ [])
  emit (u8 (0xc8 + n % 8))

unfoldable pub mov_reg_imm32_zext : String → ℤ → Asm (Unit {0})
mov_reg_imm32_zext dst imm = do
  d ← lift (reg_num dst)
  (if ltb d 8 then emit (u8 (0xb8 + d)) else (do emit (u8 (rex 0 0 0 1)); emit (u8 (0xb8 + d % 8))))
  emit (u32 imm)

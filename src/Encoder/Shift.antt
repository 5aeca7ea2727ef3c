-- ===== src/Encoder/Shift.antt =====
-- ACLM/x64enc.py: shifts, rotates and double shifts.
use aclmv.Prelude.{◌%◌, String, Bool, [], ◌∷◌}
use aclmv.Prelude.Int.{ℤ, wrap}
use aclmv.Prelude.Bits.{shr}
use aclmv.Encoder.{u8, reg_num, rex, modrm, Asm, ◌>>=◌, ◌>>◌, lift, emit}

unfoldable pub shl_reg_imm8 : String → ℤ → Asm (Unit {0})
shl_reg_imm8 r imm = do
  rr ← lift (reg_num r)
  emit (u8 (rex 1 0 0 (shr rr 3)))
  emit (u8 0xc1)
  emit (u8 (modrm 3 4 (rr % 8)))
  emit (u8 (wrap 0x40 imm))

unfoldable pub shr_reg_imm8 : String → ℤ → Asm (Unit {0})
shr_reg_imm8 r imm = do
  rr ← lift (reg_num r)
  emit (u8 (rex 1 0 0 (shr rr 3)))
  emit (u8 0xc1)
  emit (u8 (modrm 3 5 (rr % 8)))
  emit (u8 (wrap 0x40 imm))

unfoldable pub rol_reg_imm8 : String → ℤ → Asm (Unit {0})
rol_reg_imm8 r imm = do
  rr ← lift (reg_num r)
  emit (u8 (rex 1 0 0 (shr rr 3)))
  emit (u8 0xc1)
  emit (u8 (modrm 3 0 (rr % 8)))
  emit (u8 (wrap 0x40 imm))

unfoldable pub ror_reg_imm8 : String → ℤ → Asm (Unit {0})
ror_reg_imm8 r imm = do
  rr ← lift (reg_num r)
  emit (u8 (rex 1 0 0 (shr rr 3)))
  emit (u8 0xc1)
  emit (u8 (modrm 3 1 (rr % 8)))
  emit (u8 (wrap 0x40 imm))

unfoldable pub shl_reg_cl : String → Asm (Unit {0})
shl_reg_cl r = do
  rr ← lift (reg_num r)
  emit (u8 (rex 1 0 0 (shr rr 3)))
  emit (u8 0xd3)
  emit (u8 (modrm 3 4 (rr % 8)))

unfoldable pub shr_reg_cl : String → Asm (Unit {0})
shr_reg_cl r = do
  rr ← lift (reg_num r)
  emit (u8 (rex 1 0 0 (shr rr 3)))
  emit (u8 0xd3)
  emit (u8 (modrm 3 5 (rr % 8)))

unfoldable pub rol_reg_cl : String → Asm (Unit {0})
rol_reg_cl r = do
  rr ← lift (reg_num r)
  emit (u8 (rex 1 0 0 (shr rr 3)))
  emit (u8 0xd3)
  emit (u8 (modrm 3 0 (rr % 8)))

unfoldable pub ror_reg_cl : String → Asm (Unit {0})
ror_reg_cl r = do
  rr ← lift (reg_num r)
  emit (u8 (rex 1 0 0 (shr rr 3)))
  emit (u8 0xd3)
  emit (u8 (modrm 3 1 (rr % 8)))

unfoldable pub sar_reg_imm8 : String → ℤ → Asm (Unit {0})
sar_reg_imm8 r imm = do
  n ← lift (reg_num r)
  emit (u8 (rex 1 0 0 (shr n 3)))
  emit (u8 0xc1)
  emit (u8 (modrm 3 7 (n % 8)))
  emit (u8 (wrap 0x100 imm))

unfoldable pub sar_reg_cl : String → Asm (Unit {0})
sar_reg_cl r = do
  n ← lift (reg_num r)
  emit (u8 (rex 1 0 0 (shr n 3)))
  emit (u8 0xd3)
  emit (u8 (modrm 3 7 (n % 8)))

unfoldable pub rcl_reg_imm8 : String → ℤ → Asm (Unit {0})
rcl_reg_imm8 r imm = do
  n ← lift (reg_num r)
  emit (u8 (rex 1 0 0 (shr n 3)))
  emit (u8 0xc1)
  emit (u8 (modrm 3 2 (n % 8)))
  emit (u8 (wrap 0x100 imm))

unfoldable pub rcr_reg_imm8 : String → ℤ → Asm (Unit {0})
rcr_reg_imm8 r imm = do
  n ← lift (reg_num r)
  emit (u8 (rex 1 0 0 (shr n 3)))
  emit (u8 0xc1)
  emit (u8 (modrm 3 3 (n % 8)))
  emit (u8 (wrap 0x100 imm))

unfoldable pub rcl_reg_cl : String → Asm (Unit {0})
rcl_reg_cl r = do
  n ← lift (reg_num r)
  emit (u8 (rex 1 0 0 (shr n 3)))
  emit (u8 0xd3)
  emit (u8 (modrm 3 2 (n % 8)))

unfoldable pub rcr_reg_cl : String → Asm (Unit {0})
rcr_reg_cl r = do
  n ← lift (reg_num r)
  emit (u8 (rex 1 0 0 (shr n 3)))
  emit (u8 0xd3)
  emit (u8 (modrm 3 3 (n % 8)))

unfoldable pub sal_reg_imm8 : String → ℤ → Asm (Unit {0})
sal_reg_imm8 r imm = shl_reg_imm8 r imm

unfoldable pub sal_reg_cl : String → Asm (Unit {0})
sal_reg_cl r = shl_reg_cl r

unfoldable pub shld_reg_reg : String → String → Bool → Asm (Unit {0})
shld_reg_reg dst src _ = do
  d ← lift (reg_num dst)
  s ← lift (reg_num src)
  emit (u8 (rex 1 (shr s 3) 0 (shr d 3)))
  emit (0x0f ∷ 0xa5 ∷ [])
  emit (u8 (modrm 3 (s % 8) (d % 8)))

unfoldable pub shrd_reg_reg : String → String → Asm (Unit {0})
shrd_reg_reg dst src = do
  d ← lift (reg_num dst)
  s ← lift (reg_num src)
  emit (u8 (rex 1 (shr s 3) 0 (shr d 3)))
  emit (0x0f ∷ 0xad ∷ [])
  emit (u8 (modrm 3 (s % 8) (d % 8)))

unfoldable pub shld_reg_imm8 : String → String → ℤ → Asm (Unit {0})
shld_reg_imm8 dst src imm = do
  d ← lift (reg_num dst)
  s ← lift (reg_num src)
  emit (u8 (rex 1 (shr s 3) 0 (shr d 3)))
  emit (0x0f ∷ 0xa4 ∷ [])
  emit (u8 (modrm 3 (s % 8) (d % 8)))
  emit (u8 (wrap 0x100 imm))

unfoldable pub shrd_reg_imm8 : String → String → ℤ → Asm (Unit {0})
shrd_reg_imm8 dst src imm = do
  d ← lift (reg_num dst)
  s ← lift (reg_num src)
  emit (u8 (rex 1 (shr s 3) 0 (shr d 3)))
  emit (0x0f ∷ 0xac ∷ [])
  emit (u8 (modrm 3 (s % 8) (d % 8)))
  emit (u8 (wrap 0x100 imm))

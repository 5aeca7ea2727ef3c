-- ===== src/Encoder/Vex.antt =====
-- ACLM/x64enc.py: the VEX-encoded BMI instructions.
pub mod Decode
use aclmv.Prelude.{ℕ, ◌-◌, ◌%◌, bit_or, String, ltb, leb, if◌then◌else◌}
use aclmv.Prelude.Int.{ℤ, wrap}
use aclmv.Prelude.Bits.{shl}
use aclmv.Encoder.{u8, reg_num, modrm, Asm, ◌>>=◌, ◌>>◌, lift, emit}

unfoldable pub andn_reg_reg : String → String → String → Asm (Unit {0})
andn_reg_reg dst src1 src2 = do
  d ← lift (reg_num dst)
  s1 ← lift (reg_num src1)
  s2 ← lift (reg_num src2)
  let vex_r : ℕ = if ltb d 8 then 1 else 0
  let vex_b : ℕ = if ltb s2 8 then 1 else 0
  let vex_x : ℕ = 1
  let vvvv : ℕ = 0xf - s1 % 0x10
  emit (u8 0xc4)
  emit (u8 (bit_or (bit_or (bit_or (shl vex_r 7) (shl vex_x 6)) (shl vex_b 5)) 2))
  emit (u8 (bit_or (bit_or (shl 1 7) (shl vvvv 3)) 0))
  emit (u8 0xf2)
  emit (u8 (modrm 3 (d % 8) (s2 % 8)))

unfoldable pub bzhi_reg_reg : String → String → String → Asm (Unit {0})
bzhi_reg_reg dst src ctrl = do
  d ← lift (reg_num dst)
  s ← lift (reg_num src)
  c ← lift (reg_num ctrl)
  let vex_r : ℕ = if ltb d 8 then 1 else 0
  let vex_b : ℕ = if ltb s 8 then 1 else 0
  let vvvv : ℕ = 0xf - c % 0x10
  emit (u8 0xc4)
  emit (u8 (bit_or (bit_or (bit_or (shl vex_r 7) (shl 1 6)) (shl vex_b 5)) 2))
  emit (u8 (bit_or (bit_or (shl 1 7) (shl vvvv 3)) 0))
  emit (u8 0xf5)
  emit (u8 (modrm 3 (d % 8) (s % 8)))

unfoldable pub shlx_reg_reg : String → String → String → Asm (Unit {0})
shlx_reg_reg dst src cnt = do
  d ← lift (reg_num dst)
  s ← lift (reg_num src)
  c ← lift (reg_num cnt)
  let vex_r : ℕ = if ltb d 8 then 1 else 0
  let vex_b : ℕ = if ltb s 8 then 1 else 0
  let vvvv : ℕ = 0xf - c % 0x10
  emit (u8 0xc4)
  emit (u8 (bit_or (bit_or (bit_or (shl vex_r 7) (shl 1 6)) (shl vex_b 5)) 2))
  emit (u8 (bit_or (bit_or (shl 1 7) (shl vvvv 3)) 1))
  emit (u8 0xf7)
  emit (u8 (modrm 3 (d % 8) (s % 8)))

unfoldable pub shrx_reg_reg : String → String → String → Asm (Unit {0})
shrx_reg_reg dst src cnt = do
  d ← lift (reg_num dst)
  s ← lift (reg_num src)
  c ← lift (reg_num cnt)
  let vex_r : ℕ = if ltb d 8 then 1 else 0
  let vex_b : ℕ = if ltb s 8 then 1 else 0
  let vvvv : ℕ = 0xf - c % 0x10
  emit (u8 0xc4)
  emit (u8 (bit_or (bit_or (bit_or (shl vex_r 7) (shl 1 6)) (shl vex_b 5)) 2))
  emit (u8 (bit_or (bit_or (shl 1 7) (shl vvvv 3)) 3))
  emit (u8 0xf7)
  emit (u8 (modrm 3 (d % 8) (s % 8)))

unfoldable pub sarx_reg_reg : String → String → String → Asm (Unit {0})
sarx_reg_reg dst src cnt = do
  d ← lift (reg_num dst)
  s ← lift (reg_num src)
  c ← lift (reg_num cnt)
  let vex_r : ℕ = if ltb d 8 then 1 else 0
  let vex_b : ℕ = if ltb s 8 then 1 else 0
  let vvvv : ℕ = 0xf - c % 0x10
  emit (u8 0xc4)
  emit (u8 (bit_or (bit_or (bit_or (shl vex_r 7) (shl 1 6)) (shl vex_b 5)) 2))
  emit (u8 (bit_or (bit_or (shl 1 7) (shl vvvv 3)) 2))
  emit (u8 0xf7)
  emit (u8 (modrm 3 (d % 8) (s % 8)))

unfoldable pub rorx_reg_imm : String → String → ℤ → Asm (Unit {0})
rorx_reg_imm dst src imm = do
  d ← lift (reg_num dst)
  s ← lift (reg_num src)
  let vex_r : ℕ = if ltb d 8 then 1 else 0
  let vex_b : ℕ = if ltb s 8 then 1 else 0
  emit (u8 0xc4)
  emit (u8 (bit_or (bit_or (bit_or (shl vex_r 7) (shl 1 6)) (shl vex_b 5)) 3))
  emit (u8 (bit_or (bit_or (shl 1 7) (shl 0xf 3)) 3))
  emit (u8 0xf0)
  emit (u8 (modrm 3 (d % 8) (s % 8)))
  emit (u8 (wrap 0x100 imm))

unfoldable pub bextr_reg_reg : String → String → String → Asm (Unit {0})
bextr_reg_reg dst src ctrl = do
  d ← lift (reg_num dst)
  s ← lift (reg_num src)
  c ← lift (reg_num ctrl)
  let vex_r : ℕ = if ltb d 8 then 1 else 0
  let vex_b : ℕ = if ltb s 8 then 1 else 0
  let vvvv : ℕ = 0xf - c % 0x10
  emit (u8 0xc4)
  emit (u8 (bit_or (bit_or (bit_or (shl vex_r 7) (shl 1 6)) (shl vex_b 5)) 2))
  emit (u8 (bit_or (bit_or (shl 1 7) (shl vvvv 3)) 0))
  emit (u8 0xf7)
  emit (u8 (modrm 3 (d % 8) (s % 8)))

unfoldable pub blsi_reg_reg : String → String → Asm (Unit {0})
blsi_reg_reg dst src = do
  d ← lift (reg_num dst)
  s ← lift (reg_num src)
  let vex_r : ℕ = if ltb d 8 then 1 else 0
  let vex_b : ℕ = if ltb s 8 then 1 else 0
  let vvvv : ℕ = 0xf - d % 0x10
  let vvvv : ℕ = 0xf - d % 0x10
  let vex_r : ℕ = 1
  emit (u8 0xc4)
  emit (u8 (bit_or (bit_or (bit_or (shl 1 7) (shl 1 6)) (shl vex_b 5)) 2))
  emit (u8 (bit_or (bit_or (shl 1 7) (shl vvvv 3)) 0))
  emit (u8 0xf3)
  emit (u8 (modrm 3 3 (s % 8)))

unfoldable pub blsr_reg_reg : String → String → Asm (Unit {0})
blsr_reg_reg dst src = do
  d ← lift (reg_num dst)
  s ← lift (reg_num src)
  let vex_b : ℕ = if ltb s 8 then 1 else 0
  let vvvv : ℕ = 0xf - d % 0x10
  emit (u8 0xc4)
  emit (u8 (bit_or (bit_or (bit_or (shl 1 7) (shl 1 6)) (shl vex_b 5)) 2))
  emit (u8 (bit_or (bit_or (shl 1 7) (shl vvvv 3)) 0))
  emit (u8 0xf3)
  emit (u8 (modrm 3 1 (s % 8)))

unfoldable pub blsmsk_reg_reg : String → String → Asm (Unit {0})
blsmsk_reg_reg dst src = do
  d ← lift (reg_num dst)
  s ← lift (reg_num src)
  let vex_b : ℕ = if ltb s 8 then 1 else 0
  let vvvv : ℕ = 0xf - d % 0x10
  emit (u8 0xc4)
  emit (u8 (bit_or (bit_or (bit_or (shl 1 7) (shl 1 6)) (shl vex_b 5)) 2))
  emit (u8 (bit_or (bit_or (shl 1 7) (shl vvvv 3)) 0))
  emit (u8 0xf3)
  emit (u8 (modrm 3 2 (s % 8)))

unfoldable pub pext_reg_reg : String → String → String → Asm (Unit {0})
pext_reg_reg dst src mask = do
  d ← lift (reg_num dst)
  s ← lift (reg_num src)
  m ← lift (reg_num mask)
  let vex_r : ℕ = if leb 8 d then 0 else 1
  let vex_r : ℕ = if ltb d 8 then 1 else 0
  let vex_b : ℕ = if ltb m 8 then 1 else 0
  let vvvv : ℕ = 0xf - s % 0x10
  emit (u8 0xc4)
  emit (u8 (bit_or (bit_or (bit_or (shl vex_r 7) (shl 1 6)) (shl vex_b 5)) 2))
  emit (u8 (bit_or (bit_or (shl 1 7) (shl vvvv 3)) 3))
  emit (u8 0xf5)
  emit (u8 (modrm 3 (d % 8) (m % 8)))

unfoldable pub pdep_reg_reg : String → String → String → Asm (Unit {0})
pdep_reg_reg dst src mask = do
  d ← lift (reg_num dst)
  s ← lift (reg_num src)
  m ← lift (reg_num mask)
  let vex_r : ℕ = if ltb d 8 then 1 else 0
  let vex_b : ℕ = if ltb m 8 then 1 else 0
  let vvvv : ℕ = 0xf - s % 0x10
  emit (u8 0xc4)
  emit (u8 (bit_or (bit_or (bit_or (shl vex_r 7) (shl 1 6)) (shl vex_b 5)) 2))
  emit (u8 (bit_or (bit_or (shl 1 7) (shl vvvv 3)) 2))
  emit (u8 0xf5)
  emit (u8 (modrm 3 (d % 8) (m % 8)))

unfoldable pub mulx_reg_reg : String → String → String → Asm (Unit {0})
mulx_reg_reg dst_hi dst_lo src = do
  d ← lift (reg_num dst_hi)
  b ← lift (reg_num dst_lo)
  s ← lift (reg_num src)
  let vex_r : ℕ = if ltb d 8 then 1 else 0
  let vex_b : ℕ = if ltb s 8 then 1 else 0
  let vvvv : ℕ = 0xf - b % 0x10
  emit (u8 0xc4)
  emit (u8 (bit_or (bit_or (bit_or (shl vex_r 7) (shl 1 6)) (shl vex_b 5)) 2))
  emit (u8 (bit_or (bit_or (shl 1 7) (shl vvvv 3)) 3))
  emit (u8 0xf6)
  emit (u8 (modrm 3 (d % 8) (s % 8)))

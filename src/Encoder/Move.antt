-- ===== src/Encoder/Move.antt =====
-- ACLM/x64enc.py: `mov_reg_imm64`, `mov_reg_reg` and `xchg_reg_reg`.
use aclmv.Prelude.{ℕ, ◌+◌, ◌%◌, ◌^◌, ◌||◌, String, ltb, leb, ◌==◌, str_eq, if◌then◌else◌}
use aclmv.Prelude.Int.{ℤ, pos, fits, wrap, sub_ℕ}
use aclmv.Prelude.Bits.{shr}
use aclmv.Encoder.{u8, u32, u64, reg_num, rex, modrm, Asm, Assembler, ◌>>=◌, ◌>>◌, skip, lift, emit}

-- The forms that `mov_reg_imm64` chooses from.
unfoldable pub emit_imm64 : ℕ → ℕ → Asm (Unit {0})
emit_imm64 d imm = do
  emit (u8 (rex 1 0 0 (shr d 3)))
  emit (u8 (0xb8 + d % 8))
  emit (u64 (pos imm))

unfoldable pub emit_imm32 : ℕ → ℕ → Asm (Unit {0})
emit_imm32 d imm = do
  (if leb 8 d then emit (u8 0x41) else skip)
  emit (u8 (0xb8 + d % 8))
  emit (u32 (pos imm))

unfoldable pub emit_simm32 : ℕ → ℤ → Asm (Unit {0})
emit_simm32 d signed_imm = do
  emit (u8 (rex 1 0 0 (shr d 3)))
  emit (u8 0xc7)
  emit (u8 (modrm 3 0 (d % 8)))
  emit (u32 signed_imm)

-- From the line `imm = int(imm) & ((1 << 64) - 1)` on; the argument is already reduced.
unfoldable pub mov_imm : Assembler → ℕ → ℕ → Asm (Unit {0})
unfolding emit_imm64 emit_imm32 emit_simm32
mov_imm self d imm =
    if self.deterministic
    then emit_imm64 d imm
    else if imm == 0
    then emit_imm32 d 0
    else if leb imm 0xffff_ffff
    then emit_imm32 d imm
    else if leb 0xffff_ffff_8000_0000 imm || ltb imm 0x8000_0000
    then (let signed_imm : ℤ = if ltb imm 0x8000_0000 then pos imm else sub_ℕ imm (2 ^ 64) in
        if fits (2 ^ 31) signed_imm then emit_simm32 d signed_imm else emit_imm64 d imm)
    else emit_imm64 d imm

unfoldable pub mov_reg_imm64 : String → ℤ → Asm (Unit {0})
unfolding mov_imm
mov_reg_imm64 dst imm self = (do d ← lift (reg_num dst); mov_imm self d (wrap (2 ^ 64) imm)) self

unfoldable pub mov_reg_reg : String → String → Asm (Unit {0})
mov_reg_reg dst src = if str_eq dst src then skip else do
  d ← lift (reg_num dst)
  s ← lift (reg_num src)
  emit (u8 (rex 1 (shr s 3) 0 (shr d 3)))
  emit (u8 0x89)
  emit (u8 (modrm 3 (s % 8) (d % 8)))

unfoldable pub xchg_reg_reg : String → String → Asm (Unit {0})
xchg_reg_reg a b = do
  ra ← lift (reg_num a)
  rb ← lift (reg_num b)
  if str_eq a b
      then skip
      else if ra == 0
      then (do (if leb 8 rb then emit (u8 0x49) else emit (u8 0x48)); emit (u8 (0x90 + rb % 8)))
      else if rb == 0
      then (do (if leb 8 ra then emit (u8 0x49) else emit (u8 0x48)); emit (u8 (0x90 + ra % 8)))
      else (do
        emit (u8 (rex 1 (shr ra 3) 0 (shr rb 3)))
        emit (u8 0x87)
        emit (u8 (modrm 3 (ra % 8) (rb % 8))))

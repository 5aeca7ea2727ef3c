-- ===== src/Encoder/Fpu.antt =====
-- ACLM/x64enc.py: the x87 instructions.
use aclmv.Prelude.{ℕ, ◌%◌, bit_or, String, Bool, not, ◌||◌, [], ◌∷◌, leb, ◌==◌, if◌then◌else◌}
use aclmv.Prelude.Int.{ℤ, is_zero}
use aclmv.Prelude.Bits.{shl}
use aclmv.Encoder.{u8, s32, reg_num, rex, modrm, Asm, ◌>>=◌, ◌>>◌, skip, lift, emit}

unfoldable pub fpu_mem_op : ℕ → ℕ → String → ℤ → Asm (Unit {0})
fpu_mem_op opcode_byte digit base disp = do
  b ← lift (reg_num base)
  let use_sib : Bool = b % 8 == 4
  let mod' : ℕ = if not (is_zero disp) || b % 8 == 5 then 2 else 0
  (if leb 8 b then emit (u8 (rex 0 0 0 1)) else skip)
  emit (u8 opcode_byte)
  let rm_field : ℕ = if use_sib then 4 else b % 8
  emit (u8 (modrm mod' digit rm_field))
  (if use_sib then emit (u8 (bit_or (bit_or (shl 0 6) (shl 4 3)) (b % 8))) else skip)
  if mod' == 2 then (do bytes ← lift (s32 disp); emit bytes) else skip

unfoldable pub fld_m64 : String → ℤ → Asm (Unit {0})
fld_m64 base disp = fpu_mem_op 0xdd 0 base disp

unfoldable pub fstp_m64 : String → ℤ → Asm (Unit {0})
fstp_m64 base disp = fpu_mem_op 0xdd 3 base disp

unfoldable pub fild_m64 : String → ℤ → Asm (Unit {0})
fild_m64 base disp = fpu_mem_op 0xdf 5 base disp

unfoldable pub fistp_m64 : String → ℤ → Asm (Unit {0})
fistp_m64 base disp = fpu_mem_op 0xdf 7 base disp

unfoldable pub faddp : Asm (Unit {0})
faddp = emit (0xde ∷ 0xc1 ∷ [])

unfoldable pub fsubp : Asm (Unit {0})
fsubp = emit (0xde ∷ 0xe9 ∷ [])

unfoldable pub fmulp : Asm (Unit {0})
fmulp = emit (0xde ∷ 0xc9 ∷ [])

unfoldable pub fdivp : Asm (Unit {0})
fdivp = emit (0xde ∷ 0xf9 ∷ [])

unfoldable pub fcomip : Asm (Unit {0})
fcomip = emit (0xdf ∷ 0xf1 ∷ [])

unfoldable pub fstsw_ax : Asm (Unit {0})
fstsw_ax = emit (0xdf ∷ 0xe0 ∷ [])

unfoldable pub fxch : Asm (Unit {0})
fxch = emit (0xd9 ∷ 0xc9 ∷ [])

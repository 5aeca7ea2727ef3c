-- ===== src/Encoder/Avx.antt =====
-- ACLM/x64enc.py: the AVX instructions on ymm registers.
use aclmv.Prelude.{
  ℕ, ◌+◌, ◌-◌, ◌*◌, ◌%◌, bit_or, String, not, ◌&&◌, ◌||◌, Option, none, some, List, [], ◌∷◌, ltb,
  leb, ◌==◌, if◌then◌else◌,
}
use aclmv.Prelude.Int.{ℤ, is_zero, wrap}
use aclmv.Prelude.Bits.{shl}
use aclmv.Encoder.{Result, ok, err, unknown_xmm, u8, reg_num, modrm, Asm, ◌>>=◌, ◌>>◌, lift, emit}
use aclmv.Prelude.Text.{codes, lower}

-- `int(text)` for a text of ASCII digits; anything else raises. (Python's int takes signs, spaces and
-- underscores besides, which no vector register's name has.)
abbrev digit_value : ℕ → Option ℕ
digit_value c = if leb b'0' c && leb c b'9' then some (c - b'0') else none

abbrev next_digit : ℕ → Option ℕ → Option ℕ
next_digit acc none = none
next_digit acc (some v) = some (acc * 10 + v)

unfoldable pub int_from : Option ℕ → List ℕ → Option ℕ
int_from none s = none
int_from (some acc) [] = some acc
int_from (some acc) (c ∷ s) = int_from (next_digit acc (digit_value c)) s

unfoldable pub int_of : List ℕ → Option ℕ
unfolding int_from
int_of [] = none
int_of (c ∷ s) = int_from (some 0) (c ∷ s)

abbrev found_ymm : String → Option ℕ → Result ℕ
found_ymm name none = err (unknown_xmm name)
found_ymm name (some n) = ok n

-- `n[:3]` is "ymm" or "xmm"; the rest is the number.
abbrev vector_number : List ℕ → Option ℕ
vector_number (a ∷ b ∷ c ∷ s) =
    if (a == b'y' || a == b'x') && b == b'm' && c == b'm' then int_of s else none
vector_number _ = none

unfoldable pub ymm_num : String → Result ℕ
unfolding int_of
ymm_num name = found_ymm name (vector_number (lower (codes name)))

unfoldable pub vex_nnds_ps : ℕ → String → String → String → Asm (Unit {0})
vex_nnds_ps opcode dst src1 src2 = do
  d ← lift (ymm_num dst)
  s1 ← lift (ymm_num src1)
  s2 ← lift (ymm_num src2)
  let vex_r : ℕ = if ltb d 8 then 1 else 0
  let vex_x : ℕ = 1
  let vex_b : ℕ = if ltb s2 8 then 1 else 0
  let map_sel : ℕ = 1
  let vex_w : ℕ = 0
  let vvvv : ℕ = 0xf - s1 % 0x10
  let vex_l : ℕ = 1
  let pp : ℕ = 0
  emit (u8 0xc4)
  emit (u8 (bit_or (bit_or (bit_or (shl vex_r 7) (shl vex_x 6)) (shl vex_b 5)) map_sel))
  emit (u8 (bit_or (bit_or (bit_or (shl vex_w 7) (shl vvvv 3)) (shl vex_l 2)) pp))
  emit (u8 opcode)
  emit (u8 (modrm 3 (d % 8) (s2 % 8)))

-- `if src2 is None: src2 = src1; src1 = dst`
abbrev pub vex_binop : ℕ → String → String → Option String → Asm (Unit {0})
vex_binop opcode dst src1 none = vex_nnds_ps opcode dst dst src1
vex_binop opcode dst src1 (some src2) = vex_nnds_ps opcode dst src1 src2

unfoldable pub vaddps : String → String → Option String → Asm (Unit {0})
unfolding vex_nnds_ps
vaddps dst src1 src2 = vex_binop 0x58 dst src1 src2

unfoldable pub vsubps : String → String → Option String → Asm (Unit {0})
unfolding vex_nnds_ps
vsubps dst src1 src2 = vex_binop 0x5c dst src1 src2

unfoldable pub vmulps : String → String → Option String → Asm (Unit {0})
unfolding vex_nnds_ps
vmulps dst src1 src2 = vex_binop 0x59 dst src1 src2

unfoldable pub vdivps : String → String → Option String → Asm (Unit {0})
unfolding vex_nnds_ps
vdivps dst src1 src2 = vex_binop 0x5e dst src1 src2

unfoldable pub vmovups_load : String → String → ℤ → Asm (Unit {0})
vmovups_load dst base disp = do
  d ← lift (ymm_num dst)
  b ← lift (reg_num base)
  let vex_r : ℕ = if ltb d 8 then 1 else 0
  let vex_b : ℕ = if ltb b 8 then 1 else 0
  emit (u8 0xc5)
  emit (u8 (bit_or (bit_or (bit_or (shl vex_r 7) (shl 0xf 3)) (shl 1 2)) 0))
  emit (u8 0x10)
  let rm : ℕ = b % 8
  if rm == 5 || not (is_zero disp)
      then (do emit (u8 (modrm 1 (d % 8) rm)); emit (u8 (wrap 0x100 disp)))
      else (do
        if rm == 4
            then (do
              emit (u8 (modrm 0 (d % 8) 4))
              emit (u8 (bit_or (bit_or (shl 0 6) (shl 4 3)) rm)))
            else emit (u8 (modrm 0 (d % 8) rm)))

unfoldable pub vmovups_store : String → String → ℤ → Asm (Unit {0})
vmovups_store base src disp = do
  s ← lift (ymm_num src)
  b ← lift (reg_num base)
  let vex_r : ℕ = if ltb s 8 then 1 else 0
  let vex_b : ℕ = if ltb b 8 then 1 else 0
  emit (u8 0xc5)
  emit (u8 (bit_or (bit_or (bit_or (shl vex_r 7) (shl 0xf 3)) (shl 1 2)) 0))
  emit (u8 0x11)
  let rm : ℕ = b % 8
  if rm == 5 || not (is_zero disp)
      then (do emit (u8 (modrm 1 (s % 8) rm)); emit (u8 (wrap 0x100 disp)))
      else (do
        if rm == 4
            then (do
              emit (u8 (modrm 0 (s % 8) 4))
              emit (u8 (bit_or (bit_or (shl 0 6) (shl 4 3)) rm)))
            else emit (u8 (modrm 0 (s % 8) rm)))

unfoldable pub vshufps : String → String → ℤ → Asm (Unit {0})
vshufps dst src imm8 = do
  d ← lift (ymm_num dst)
  s ← lift (ymm_num src)
  let vex_r : ℕ = if ltb d 8 then 1 else 0
  let vex_b : ℕ = if ltb s 8 then 1 else 0
  let vvvv : ℕ = 0xf - d % 0x10
  emit (u8 0xc4)
  emit (u8 (bit_or (bit_or (bit_or (shl vex_r 7) (shl 1 6)) (shl vex_b 5)) 1))
  emit (u8 (bit_or (bit_or (bit_or (shl 0 7) (shl vvvv 3)) (shl 1 2)) 0))
  emit (u8 0xc6)
  emit (u8 (modrm 3 (d % 8) (s % 8)))
  emit (u8 (wrap 0x100 imm8))

unfoldable pub vbroadcastss : String → String → Asm (Unit {0})
vbroadcastss dst src_xmm = do
  d ← lift (ymm_num dst)
  s ← lift (ymm_num src_xmm)
  let vex_r : ℕ = if ltb d 8 then 1 else 0
  let vex_b : ℕ = if ltb s 8 then 1 else 0
  emit (u8 0xc4)
  emit (u8 (bit_or (bit_or (bit_or (shl vex_r 7) (shl 1 6)) (shl vex_b 5)) 2))
  emit (u8 (bit_or (bit_or (bit_or (shl 0 7) (shl 0xf 3)) (shl 1 2)) 1))
  emit (u8 0x18)
  emit (u8 (modrm 3 (d % 8) (s % 8)))

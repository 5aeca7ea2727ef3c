-- ===== src/Encoder/Memory.antt =====
-- ACLM/x64enc.py: the instructions with a memory operand [base + index*scale + disp]: loads and
-- stores of every width, `lea`, `lock cmpxchg`. The lines that the four emitters share, from
-- `use_sib` on, are `sib_fields` and `disp_mod`.
pub mod Operand
pub mod Decode
pub mod Access
pub mod Narrow
pub mod Moves
use aclmv.Prelude.{
  ℕ, ◌*◌, ◌/◌, ◌%◌, ◌^◌, bit_or, String, Bool, true, false, not, ◌&&◌, ◌||◌, Option, none, some, [],
  ◌∷◌, ltb, leb, ◌==◌, if◌then◌else◌,
}
use aclmv.Prelude.Int.{ℤ, is_zero, wrap}
use aclmv.Prelude.Bits.{shl, shr}
use aclmv.Encoder.{
  Result, ok, err, key_error, u8, s32, reg_num, rex, modrm, Asm, ◌>>=◌, ◌>>◌, skip, lift, emit,
}

abbrev pub is_some : Option String → Bool
is_some none = false
is_some (some _) = true

-- `{1: 0, 2: 1, 4: 2, 8: 3}[scale]`
unfoldable pub scale_bits : ℕ → Result ℕ
scale_bits scale =
    if scale == 1
    then ok 0
    else if scale == 2
    then ok 1
    else if scale == 4
    then ok 2
    else if scale == 8
    then ok 3
    else err key_error

-- `rex_x` and `sib`. Without an index `rex_x` stays 0, and `sib` is read only for a base rsp or r12.
abbrev pack_sib : ℕ → ℕ → Result ℕ → Result (ℕ × ℕ)
pack_sib b idx (ok bits) = ok (shr idx 3, bit_or (bit_or (shl bits 6) (shl (idx % 8) 3)) (b % 8))
pack_sib b idx (err e) = err e

abbrev index_sib : ℕ → ℕ → Result ℕ → Result (ℕ × ℕ)
index_sib b scale (ok idx) = pack_sib b idx (scale_bits scale)
index_sib b scale (err e) = err e

unfoldable pub sib_fields : Option String → ℕ → ℕ → Result (ℕ × ℕ)
sib_fields none scale b = ok (0, bit_or (bit_or (shl 0 6) (shl 4 3)) (b % 8))
sib_fields (some index) scale b = index_sib b scale (reg_num index)

abbrev pub disp_mod : ℤ → ℕ → ℕ
disp_mod disp b = if not (is_zero disp) || b % 8 == 5 then 2 else 0

-- What follows the opcode: ModRM, SIB and displacement.
unfoldable pub emit_operand : ℕ → ℕ → Bool → ℕ → ℕ → ℤ → Asm (Unit {0})
emit_operand r b use_sib sib mod' disp = do
  let rm_field : ℕ = if use_sib then 4 else b % 8
  emit (u8 (modrm mod' (r % 8) rm_field))
  (if use_sib then emit (u8 sib) else skip)
  if mod' == 2 then (do bytes ← lift (s32 disp); emit bytes) else skip

-- `_emit_mem_op`
unfoldable pub emit_mem_op : ℕ → String → String → ℤ → Option String → ℕ → Asm (Unit {0})
emit_mem_op opcode reg_operand base disp index scale = do
  r ← lift (reg_num reg_operand)
  b ← lift (reg_num base)
  let use_sib : Bool = is_some index || b % 8 == 4
  (rex_x, sib) ← lift (sib_fields index scale b)
  emit (u8 (rex 1 (shr r 3) rex_x (shr b 3)))
  emit (u8 opcode)
  emit_operand r b use_sib sib (disp_mod disp b) disp

-- `_emit_mem_op_0f`
unfoldable pub emit_mem_op_0f : ℕ → String → String → ℤ → Option String → ℕ → Asm (Unit {0})
emit_mem_op_0f opcode2 reg_operand base disp index scale = do
  r ← lift (reg_num reg_operand)
  b ← lift (reg_num base)
  let use_sib : Bool = is_some index || b % 8 == 4
  (rex_x, sib) ← lift (sib_fields index scale b)
  emit (u8 (rex 1 (shr r 3) rex_x (shr b 3)))
  emit (0x0f ∷ [])
  emit (u8 opcode2)
  emit_operand r b use_sib sib (disp_mod disp b) disp

-- `_emit_mem_op_sized`
unfoldable pub emit_mem_op_sized : ℕ → String → String → ℤ → Option String → ℕ → ℕ → Asm (Unit {0})
emit_mem_op_sized opcode reg_operand base disp index scale size = do
  r ← lift (reg_num reg_operand)
  b ← lift (reg_num base)
  let use_sib : Bool = is_some index || b % 8 == 4
  (rex_x, sib) ← lift (sib_fields index scale b)
  (if size == 16 then emit (0x66 ∷ []) else skip)
  let low_byte : Bool = size == 8 && (r == 4 || r == 5 || r == 6 || r == 7)
  let need_rex : Bool = low_byte || leb 8 r || leb 8 b || not (rex_x == 0)
  (if need_rex || not (size == 8) then emit (u8 (rex 0 (shr r 3) rex_x (shr b 3))) else skip)
  emit (u8 opcode)
  emit_operand r b use_sib sib (disp_mod disp b) disp

unfoldable pub mov_reg_mem : String → String → ℤ → Option String → ℕ → Asm (Unit {0})
mov_reg_mem dst base disp index scale = emit_mem_op 0x8b dst base disp index scale

unfoldable pub mov_mem_reg : String → ℤ → String → Option String → ℕ → Asm (Unit {0})
mov_mem_reg base disp src index scale = emit_mem_op 0x89 src base disp index scale

unfoldable pub mov8_reg_mem : String → String → ℤ → Option String → ℕ → Asm (Unit {0})
mov8_reg_mem dst base disp index scale = emit_mem_op_0f 0xb6 dst base disp index scale

unfoldable pub mov16_reg_mem : String → String → ℤ → Option String → ℕ → Asm (Unit {0})
mov16_reg_mem dst base disp index scale = emit_mem_op_0f 0xb7 dst base disp index scale

unfoldable pub mov32_reg_mem : String → String → ℤ → Option String → ℕ → Asm (Unit {0})
mov32_reg_mem dst base disp index scale = do
  r ← lift (reg_num dst)
  b ← lift (reg_num base)
  let use_sib : Bool = is_some index || b % 8 == 4
  (rex_x, sib) ← lift (sib_fields index scale b)
  let need_rex : Bool = leb 8 r || leb 8 b || not (rex_x == 0)
  (if need_rex then emit (u8 (rex 0 (shr r 3) rex_x (shr b 3))) else skip)
  emit (u8 0x8b)
  emit_operand r b use_sib sib (disp_mod disp b) disp

unfoldable pub mov8_mem_reg : String → ℤ → String → Option String → ℕ → Asm (Unit {0})
mov8_mem_reg base disp src index scale = emit_mem_op_sized 0x88 src base disp index scale 8

unfoldable pub mov16_mem_reg : String → ℤ → String → Option String → ℕ → Asm (Unit {0})
mov16_mem_reg base disp src index scale = emit_mem_op_sized 0x89 src base disp index scale 16

unfoldable pub mov32_mem_reg : String → ℤ → String → Option String → ℕ → Asm (Unit {0})
mov32_mem_reg base disp src index scale = emit_mem_op_sized 0x89 src base disp index scale 32

-- `scale_map.get(scale, 0)`
unfoldable pub scale_bits_or_0 : ℕ → ℕ
scale_bits_or_0 scale =
    if scale == 2 then 1 else if scale == 4 then 2 else if scale == 8 then 3 else 0

-- The branches of `lea_reg_mem`.
unfoldable pub lea_indexed : ℕ → ℕ → ℤ → String → ℕ → Asm (Unit {0})
lea_indexed d b disp index scale = do
  ix ← lift (reg_num index)
  let sc : ℕ = scale_bits_or_0 scale
  emit (u8 (bit_or (bit_or (bit_or 0x48 (shl (shr d 3) 2)) (shl (shr ix 3) 1)) (shr b 3)))
  emit (u8 0x8d)
  let mod' : ℕ = if not (is_zero disp) || b % 8 == 5 then 1 else 0
  emit (u8 (modrm mod' (d % 8) 4))
  emit (u8 (bit_or (bit_or (shl sc 6) (shl (ix % 8) 3)) (b % 8)))
  if mod' == 1 then emit (u8 (wrap 0x100 disp)) else skip

unfoldable pub lea_plain : ℕ → ℕ → ℤ → Asm (Unit {0})
lea_plain d b disp = do
  emit (u8 (bit_or (bit_or 0x48 (shl (shr d 3) 2)) (shr b 3)))
  emit (u8 0x8d)
  let rm : ℕ = b % 8
  if rm == 4
      then (do
        let mod' : ℕ = if not (is_zero disp) then 1 else 0
        emit (u8 (modrm mod' (d % 8) 4))
        emit (u8 (bit_or (bit_or (shl 0 6) (shl 4 3)) rm))
        if mod' == 1 then emit (u8 (wrap 0x100 disp)) else skip)
      else if not (is_zero disp) || rm == 5
      then (do emit (u8 (modrm 1 (d % 8) rm)); emit (u8 (wrap 0x100 disp)))
      else emit (u8 (modrm 0 (d % 8) rm))

abbrev pub lea_branch : ℕ → ℕ → ℤ → Option String → ℕ → Asm (Unit {0})
lea_branch d b disp none scale = lea_plain d b disp
lea_branch d b disp (some index) scale = lea_indexed d b disp index scale

unfoldable pub lea_reg_mem : String → String → ℤ → Option String → ℕ → Asm (Unit {0})
unfolding lea_plain lea_indexed
lea_reg_mem dst base disp index scale = do
  d ← lift (reg_num dst)
  b ← lift (reg_num base)
  lea_branch d b disp index scale

unfoldable pub lock_cmpxchg_mem : String → ℤ → String → Asm (Unit {0})
lock_cmpxchg_mem base disp src = do
  r ← lift (reg_num src)
  b ← lift (reg_num base)
  emit (u8 0xf0)
  let rex_r : ℕ = if leb 8 r then bit_or 0x48 4 else 0x48
  let rex_b : ℕ = if leb 8 b then bit_or rex_r 1 else rex_r
  emit (u8 rex_b)
  emit (0x0f ∷ 0xb1 ∷ [])
  let rm : ℕ = b % 8
  let reg : ℕ = r % 8
  let need_disp : Bool = not (is_zero disp) || rm == 5
  if rm == 4
      then (do
        let mod' : ℕ = if not (is_zero disp) || rm == 5 then 1 else if need_disp then 1 else 0
        emit (u8 (modrm mod' reg 4))
        emit (u8 (bit_or (bit_or (shl 0 6) (shl 4 3)) rm))
        if mod' == 1 then emit (u8 (wrap 0x100 disp)) else skip)
      else if need_disp
      then (do emit (u8 (modrm 1 reg rm)); emit (u8 (wrap 0x100 disp)))
      else emit (u8 (modrm 0 reg rm))

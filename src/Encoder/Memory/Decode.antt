-- ===== src/Encoder/Memory/Decode.antt =====
-- What the loads and stores share: their hypotheses, and the operand read back by the processor's rules.
use aclmv.Prelude.{
  ℕ, ◌/◌, ◌%◌, ◌^◌, ◌<◌, ◌≡◌, refl, bit_or, true, ◌||◌, List, ◌++◌, arith, ◌==◌, if◌then◌else◌,
  Option, none, some, ◌⊎◌, String,
}
use aclmv.Prelude.Int.{ℤ, fits}
use aclmv.Prelude.Bits.{shr, shl}
use aclmv.X86.{Extension, memory, index_of, scale_of, read_modrm, finish}
use aclmv.Encoder.{ok, reg_num}
use aclmv.Encoder.Bytes.{reg_num-lt}
use aclmv.Encoder.Emits.{Emits}
use aclmv.Encoder.Memory.{is_some, scale_bits, sib_fields, disp_mod, emit_operand}
use aclmv.Encoder.Memory.Operand.{
  operand_bytes, Emits-emit_operand, read_modrm-plain, read_modrm-indexed,
}

-- The index argument names the register `i` with a scale of 1, 2, 4 or 8, or there is none.
abbrev pub IndexIs : Option String → ℕ → Option ℕ → Type 0
IndexIs none scale none = Unit
IndexIs (some name) scale (some i) =
    (reg_num name ≡ ok i) × ((scale ≡ 1) ⊎ (scale ≡ 2) ⊎ (scale ≡ 4) ⊎ (scale ≡ 8))
IndexIs _ scale _ = ⊥

-- What the processor takes for the index: rsp, number 4, stands for no index.
abbrev pub index_read : Option ℕ → ℕ → Option (ℕ × ℕ)
index_read none scale = none
index_read (some i) scale = index_of i scale

-- The fields `rex_x` and `sib` by number.
abbrev pub rex_x_of : Option ℕ → ℕ
rex_x_of none = 0
rex_x_of (some i) = shr i 3

abbrev pub bits_of : ℕ → ℕ
bits_of scale = if scale == 1 then 0 else if scale == 2 then 1 else if scale == 4 then 2 else 3

abbrev pub sib_of : Option ℕ → ℕ → ℕ → ℕ
sib_of none scale b = bit_or (bit_or (shl 0 6) (shl 4 3)) (b % 8)
sib_of (some i) scale b = bit_or (bit_or (shl (bits_of scale) 6) (shl (i % 8) 3)) (b % 8)

scale_bits_lem :
    (scale : ℕ)
    → (scale ≡ 1) ⊎ (scale ≡ 2) ⊎ (scale ≡ 4) ⊎ (scale ≡ 8)
    → (scale_bits scale ≡ ok (bits_of scale))
      × (bits_of scale < 4)
      × (scale_of (bits_of scale) ≡ scale)
unfolding scale_bits
scale_bits_lem scale h = ground arith

pub sib_fields_lem :
    (index : Option String) (scale b : ℕ) (idx : Option ℕ)
    → IndexIs index scale idx
    → sib_fields index scale b ≡ ok (rex_x_of idx, sib_of idx scale b)
unfolding sib_fields
sib_fields_lem none scale b none h = refl
sib_fields_lem none scale b (some i) h = absurd h
sib_fields_lem (some name) scale b none h = absurd h
sib_fields_lem (some name) scale b (some i) (hi, hs) = rw (hi, (scale_bits_lem scale hs).0)

pub rex_x_of-lt :
    (index : Option String) (scale : ℕ) (idx : Option ℕ)
    → IndexIs index scale idx
    → rex_x_of idx < 2
rex_x_of-lt none scale none h = omega arith
rex_x_of-lt none scale (some i) h = absurd h
rex_x_of-lt (some name) scale none h = absurd h
rex_x_of-lt (some name) scale (some i) (hi, hs) = omega (arith, reg_num-lt name hi)

-- The hypotheses of every load and store: the names stand for these register numbers, and the
-- displacement fits its field.
pub record Resolves (reg base : String) (index : Option String) (scale : ℕ) (disp : ℤ) (r b : ℕ)
    (idx : Option ℕ) : Type 0 where
  pub reg_is : reg_num reg ≡ ok r
  pub base_is : reg_num base ≡ ok b
  pub index_is : IndexIs index scale idx
  pub disp_fits : fits (2 ^ 31) disp ≡ true

module _ {reg base : String} {index : Option String} {scale : ℕ} {disp : ℤ} {r b : ℕ}
    {idx : Option ℕ} (h : Resolves reg base index scale disp r b idx) where
  abbrev pub tail_bytes : List ℕ
  tail_bytes =
      operand_bytes r b (is_some index || b % 8 == 4) (sib_of idx scale b) (disp_mod disp b) disp

  pub read_tail :
      (e : Extension) (opmap opcode : ℕ) (rest : List ℕ)
      → e.b ≡ b / 8
      → e.x ≡ rex_x_of idx
      → read_modrm e opmap opcode (tail_bytes ++ rest)
        ≡ finish e opmap opcode (r % 8) (some (memory b (index_read idx scale) disp, rest))
  read_tail e opmap opcode rest eb ex = go index idx h.index_is ex
    where
      go :
          (index : Option String) (idx : Option ℕ)
          → IndexIs index scale idx
          → e.x ≡ rex_x_of idx
          → read_modrm e opmap opcode (
              operand_bytes r b
                (is_some index || b % 8 == 4)
                (sib_of idx scale b)
                (disp_mod disp b)
                disp
              ++ rest)
            ≡ finish e opmap opcode (r % 8) (some (memory b (index_read idx scale) disp, rest))
      go none none hi ex =
          read_modrm-plain e opmap opcode r b disp rest (reg_num-lt base h.base_is) eb ex
            h.disp_fits
      go none (some i) hi ex = absurd hi
      go (some name) none hi ex = absurd hi
      go (some name) (some i) (hi, hs) ex =
          let (_, small, back) = scale_bits_lem scale hs in
          rw back at (
            read_modrm-indexed e opmap opcode r b disp rest (bits_of scale) i
              (reg_num-lt base h.base_is) small eb ex h.disp_fits)

  pub Emits-tail :
      Emits
        (emit_operand r b (is_some index || b % 8 == 4) (sib_of idx scale b) (disp_mod disp b) disp)
        tail_bytes
  Emits-tail =
      Emits-emit_operand r b (is_some index || b % 8 == 4) (sib_of idx scale b) (disp_mod disp b)
        disp h.disp_fits

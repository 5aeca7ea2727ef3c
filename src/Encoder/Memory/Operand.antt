-- ===== src/Encoder/Memory/Operand.antt =====
-- What `emit_operand` writes behind the opcode, read back by the processor's rules.
use aclmv.Prelude.{
  ℕ, ◌+◌, ◌*◌, ◌/◌, ◌%◌, ◌^◌, ◌<◌, ◌≡◌, ◌∙◌, ap, bit_or, Bool, true, List, [], ◌++◌, arith, ◌==◌,
  if◌then◌else◌, none, some, append_assoc, inl, inr, Bool-cases,
}
use aclmv.Prelude.Int.{ℤ, pos, is_zero, fits, wrap, signed, signed-wrap32, wrap32-lt}
use aclmv.Prelude.Bits.{shl}
use aclmv.X86.{memory, Extension, read_disp32, read_disp, read_modrm, index_of, scale_of, finish}
use aclmv.Encoder.ReadBack.{IsMemoryForm, read_modrm-base, read_modrm-sib}
use aclmv.Encoder.{ok, le_bytes, u8, s32, modrm}
use aclmv.Encoder.Emits.{Emits, Emits-emit, Emits-skip, Emits-seq, Emits-lift, Emits-if}
use aclmv.Encoder.Memory.{disp_mod, emit_operand}

-- The displacement field: nothing, or four bytes.
abbrev pub disp_bytes : ℤ → ℕ → List ℕ
disp_bytes disp mod' = if mod' == 2 then le_bytes 4 (wrap (2 ^ 32) disp) else []

pub read_disp32-le_bytes :
    (disp : ℤ) (rest : List ℕ)
    → fits (2 ^ 31) disp ≡ true
    → read_disp32 (le_bytes 4 (wrap (2 ^ 32) disp) ++ rest) ≡ some (disp, rest)
unfolding read_disp32 le_bytes
read_disp32-le_bytes disp rest h =
    ap (λ d. some (d, rest))
      (ap (signed (2 ^ 31)) (omega (arith, wrap32-lt disp)) ∙ signed-wrap32 disp h)

is_zero-eq : (disp : ℤ) → is_zero disp ≡ true → disp ≡ pos 0
is_zero-eq disp h = ground arith

-- The displacement is read back from the mod field that `disp_mod` chose.
pub read_disp-disp_bytes :
    (disp : ℤ) (b : ℕ) (rest : List ℕ)
    → fits (2 ^ 31) disp ≡ true
    → read_disp (disp_mod disp b) (disp_bytes disp (disp_mod disp b) ++ rest) ≡ some (disp, rest)
unfolding read_disp
read_disp-disp_bytes disp b rest h =
    ground (arith, read_disp32-le_bytes disp rest h, is_zero-eq disp)

abbrev pub operand_bytes : ℕ → ℕ → Bool → ℕ → ℕ → ℤ → List ℕ
operand_bytes r b use_sib sib mod' disp =
    u8 (modrm mod' (r % 8) (if use_sib then 4 else b % 8))
    ++ ((if use_sib then u8 sib else []) ++ disp_bytes disp mod')

s32-fits : (disp : ℤ) → fits (2 ^ 31) disp ≡ true → s32 disp ≡ ok (le_bytes 4 (wrap (2 ^ 32) disp))
unfolding s32
s32-fits disp h = rw h

pub Emits-emit_operand :
    (r b : ℕ) (use_sib : Bool) (sib mod' : ℕ) (disp : ℤ)
    → fits (2 ^ 31) disp ≡ true
    → Emits (emit_operand r b use_sib sib mod' disp) (operand_bytes r b use_sib sib mod' disp)
unfolding emit_operand
Emits-emit_operand r b use_sib sib mod' disp h = Emits-seq (Emits-emit _) (
    Emits-seq (Emits-if use_sib (Emits-emit _) Emits-skip)
      (Emits-if (mod' == 2) (Emits-lift _ (s32-fits disp h) (Emits-emit _)) Emits-skip))

disp_mod-form : (disp : ℤ) (b : ℕ) → IsMemoryForm (disp_mod disp b) (b % 8)
disp_mod-form disp b = (ground arith, omega arith, λ e f. ground arith)

module _ (e : Extension) (opmap opcode r b : ℕ) (disp : ℤ) (rest : List ℕ) where
  pub read_modrm-plain :
      b < 16
      → e.b ≡ b / 8
      → e.x ≡ 0
      → fits (2 ^ 31) disp ≡ true
      → read_modrm e opmap opcode (
          operand_bytes r b
            (b % 8 == 4)
            (bit_or (bit_or (shl 0 6) (shl 4 3)) (b % 8))
            (disp_mod disp b)
            disp
          ++ rest)
        ≡ finish e opmap opcode (r % 8) (some (memory b none disp, rest))
  read_modrm-plain hb eb ex h =
      let eq_b : b % 8 + 8 * e.b ≡ b = omega arith in
      let eq_i : 4 + 8 * e.x ≡ 4 = omega arith in
      elim (Bool-cases (b % 8 == 4)) [
        | inl q ↦ rw q (
            rw append_assoc (
              rw append_assoc (
                read_modrm-sib e opmap opcode (disp_mod disp b) (r % 8) 0 4 (b % 8) _ (omega arith)
                  (omega arith) (omega arith) (disp_mod-form disp b)
                ∙ ap (finish e opmap opcode (r % 8)) {y = some (memory b none disp, rest)}
                    (rw (eq_b, eq_i, read_disp-disp_bytes disp b rest h)))))
        | inr q ↦ rw q (
            rw append_assoc (
              read_modrm-base e opmap opcode (disp_mod disp b) (r % 8) (b % 8) _ (omega arith)
                (disp_mod-form disp b) (ground (arith, q))
              ∙ ap (finish e opmap opcode (r % 8)) {y = some (memory b none disp, rest)}
                  (rw (eq_b, read_disp-disp_bytes disp b rest h))))
      ]

  pub read_modrm-indexed :
      (sc i : ℕ)
      → b < 16
      → sc < 4
      → e.b ≡ b / 8
      → e.x ≡ i / 8
      → fits (2 ^ 31) disp ≡ true
      → read_modrm e opmap opcode (
          operand_bytes r b true
            (bit_or (bit_or (shl sc 6) (shl (i % 8) 3)) (b % 8))
            (disp_mod disp b)
            disp
          ++ rest)
        ≡ finish e opmap opcode (r % 8) (some (memory b (index_of i (scale_of sc)) disp, rest))
  read_modrm-indexed sc i hb hs eb ex h =
      let eq_b : b % 8 + 8 * e.b ≡ b = omega arith in
      let eq_i : i % 8 + 8 * e.x ≡ i = omega arith in
      rw append_assoc (
        rw append_assoc (
          read_modrm-sib e opmap opcode (disp_mod disp b) (r % 8) sc (i % 8) (b % 8) _ (omega arith)
            hs (omega arith) (disp_mod-form disp b)
          ∙ ap (finish e opmap opcode (r % 8))
              {y = some (memory b (index_of i (scale_of sc)) disp, rest)}
              (rw (eq_b, eq_i, read_disp-disp_bytes disp b rest h))))

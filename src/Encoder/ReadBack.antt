-- ===== src/Encoder/ReadBack.antt =====
-- The ModRM and SIB bytes of the encoder, read back by the processor's rules. Every memory form goes
-- through the two lemmas on memory operands, whatever its displacement.
use aclmv.Prelude.{
  ℕ, ◌+◌, ◌*◌, ◌/◌, ◌%◌, ◌<◌, ◌≡◌, ◌≢◌, ◌∙◌, ap, bit_or, false, ◌&&◌, List, [], ◌∷◌, ◌++◌, arith,
  ◌==◌, if◌then◌else◌, none, some, Bool-cases, inl, inr,
}
use aclmv.Prelude.Bits.{shl, fields_sum}
use aclmv.X86.{
  register, memory, no_base, Extension, read_disp, read_sib, read_rm, read_modrm, with_disp,
  index_of, scale_of, finish,
}
use aclmv.Encoder.{u8, modrm}
use aclmv.Encoder.Bytes.{u8_lem, modrm_lem, modrm-lt}

-- A mod field of a memory form; mod 00 with base 101 has another meaning.
abbrev pub IsMemoryForm : ℕ → ℕ → Type 0
IsMemoryForm m c = (m < 3) × (c < 8) × (m ≡ 0 → c ≢ 5)

pub u8-modrm : (m r c : ℕ) → m < 4 → r < 8 → c < 8 → u8 (modrm m r c) ≡ (m * 64 + r * 8 + c) ∷ []
u8-modrm m r c hm hr hc =
    u8_lem _ (modrm-lt m r c hm hr hc) ∙ ap (λ t. t ∷ []) (modrm_lem m r c hm hr hc)

read_sib-fields :
    (m sc i c x b : ℕ) (rest : List ℕ)
    → sc < 4
    → i < 8
    → c < 8
    → read_sib m x b ((sc * 64 + i * 8 + c) ∷ rest) ≡ (
        if m == 0 && c == 5
        then with_disp (no_base (index_of (i + 8 * x) (scale_of sc))) (read_disp 2 rest)
        else with_disp (memory (c + 8 * b) (index_of (i + 8 * x) (scale_of sc))) (read_disp m rest))
unfolding read_sib
read_sib-fields m sc i c x b rest hs hi hc =
    let n : ℕ = sc * 64 + i * 8 + c in
    let f : n / 64 ≡ sc = omega arith in
    let g : n / 8 % 8 ≡ i = omega arith in
    let k : n % 8 ≡ c = omega arith in
    λ j.
      if m == 0 && k j == 5
      then with_disp (no_base (index_of (g j + 8 * x) (scale_of (f j)))) (read_disp 2 rest)
      else with_disp (memory (k j + 8 * b) (index_of (g j + 8 * x) (scale_of (f j))))
          (read_disp m rest)

memory_form : (m c : ℕ) → (m ≡ 0 → c ≢ 5) → (m == 0 && c == 5) ≡ false
memory_form m c h = elim (Bool-cases (m == 0 && c == 5)) [
  | inl e ↦ absurd (h (ground arith) (ground arith))
  | inr e ↦ e
]

read_sib-memory :
    (m sc i c x b : ℕ) (rest : List ℕ)
    → sc < 4
    → i < 8
    → c < 8
    → (m ≡ 0 → c ≢ 5)
    → read_sib m x b ((sc * 64 + i * 8 + c) ∷ rest)
      ≡ with_disp (memory (c + 8 * b) (index_of (i + 8 * x) (scale_of sc))) (read_disp m rest)
read_sib-memory m sc i c x b rest hs hi hc h =
    read_sib-fields m sc i c x b rest hs hi hc ∙ rw (memory_form m c h)

module _ (e : Extension) (opmap opcode : ℕ) where
  read_modrm-fields :
      (m r c : ℕ) (rest : List ℕ)
      → r < 8
      → c < 8
      → read_modrm e opmap opcode ((m * 64 + r * 8 + c) ∷ rest)
        ≡ finish e opmap opcode r (read_rm m c e.x e.b rest)
  unfolding read_modrm
  read_modrm-fields m r c rest hr hc =
      let n : ℕ = m * 64 + r * 8 + c in
      let f : n / 64 ≡ m = omega arith in
      let g : n / 8 % 8 ≡ r = omega arith in
      let k : n % 8 ≡ c = omega arith in
      λ i. finish e opmap opcode (g i) (read_rm (f i) (k i) e.x e.b rest)

  pub read_modrm-register :
      (r c : ℕ) (rest : List ℕ)
      → r < 8
      → c < 8
      → read_modrm e opmap opcode (u8 (modrm 3 r c) ++ rest)
        ≡ finish e opmap opcode r (some (register (c + 8 * e.b), rest))
  unfolding read_rm
  read_modrm-register r c rest hr hc =
      rw (u8-modrm 3 r c (omega arith) hr hc) (read_modrm-fields 3 r c rest hr hc)

  pub read_modrm-base :
      (m r c : ℕ) (rest : List ℕ)
      → r < 8
      → IsMemoryForm m c
      → c ≢ 4
      → read_modrm e opmap opcode (u8 (modrm m r c) ++ rest)
        ≡ finish e opmap opcode r (with_disp (memory (c + 8 * e.b) none) (read_disp m rest))
  unfolding read_rm
  read_modrm-base m r c rest hr (hm, hc, hf) h =
      rw (u8-modrm m r c (omega arith) hr hc)
        (read_modrm-fields m r c rest hr hc ∙ ap (finish e opmap opcode r) (ground arith))

  read_rm-sib :
      (m sib x b : ℕ) (rest : List ℕ)
      → m < 3
      → read_rm m 4 x b (sib ∷ rest) ≡ read_sib m x b (sib ∷ rest)
  unfolding read_rm
  read_rm-sib m sib x b rest h = ground arith

  pub read_modrm-sib :
      (m r sc i c : ℕ) (rest : List ℕ)
      → r < 8
      → sc < 4
      → i < 8
      → IsMemoryForm m c
      → read_modrm e opmap opcode
          (u8 (modrm m r 4) ++ (u8 (bit_or (bit_or (shl sc 6) (shl i 3)) c) ++ rest))
        ≡ finish e opmap opcode r (
            with_disp
              (memory (c + 8 * e.b) (index_of (i + 8 * e.x) (scale_of sc)))
              (read_disp m rest))
  read_modrm-sib m r sc i c rest hr hs hi (hm, hc, hf) =
      rw
        (
          u8-modrm m r 4 (omega arith) hr (omega arith),
          fields_sum sc i c hs hi hc,
          u8_lem (sc * 64 + i * 8 + c) (omega arith),
        )
        (read_modrm-fields m r 4 _ hr (omega arith)
          ∙ ap (finish e opmap opcode r) (
              read_rm-sib m (sc * 64 + i * 8 + c) e.x e.b rest hm
              ∙ read_sib-memory m sc i c e.x e.b rest hs hi hc hf))

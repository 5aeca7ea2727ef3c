-- ===== src/Encoder/Linking.antt =====
-- `link`: what the code holds when every fixup has been patched.
pub mod Loop
use aclmv.Prelude.{
  ℕ, zero, suc, ◌+◌, ◌-◌, ◌*◌, ◌/◌, ◌%◌, ◌^◌, ◌<◌, ◌≤◌, ◌≡◌, ◌≢◌, ◌∙◌, refl, sym, ap, Bool, true,
  false, List, [], ◌∷◌, ◌++◌, arith, ◌==◌, if◌then◌else◌, Option, none, some, String, append_assoc,
  inl, inr, ◌⊎◌, length, length-append, length-take, length-drop, take, drop, get_elem?,
  get_elem?-take, get_elem?-drop, get_elem?-append_left, get_elem?-append_right, drop-append_length,
  take-append_le, take-take, take-append_add, Bool-cases, All, lookup, Assoc, Option-cases, min,
}
use aclmv.Prelude.Int.{ℤ, sub_ℕ, fits, wrap}
use aclmv.X86.{read_disp32}
use aclmv.Encoder.{
  Result, ok, err, Error, le_bytes, s32, Reloc, Assembler, patch, link_reloc, link_loop, link,
}
use aclmv.Encoder.Memory.Operand.{read_disp32-le_bytes}

-- The fixups are rel32 fields that lie inside the code, in order and apart: the next field begins at
-- `from` or later.
abbrev pub Apart : ℕ → ℕ → List Reloc → Type 0
Apart from size [] = Unit
Apart from size (r ∷ rs) = (from ≤ r.offset) × (r.offset + 4 ≤ size) × Apart (r.offset + 4) size rs

length-le_bytes4 : (v : ℕ) → length (le_bytes 4 v) ≡ 4
unfolding le_bytes
length-le_bytes4 v = refl

module _ (code : List ℕ) (off v : ℕ) (fit : off + 4 ≤ length code) where
  pub length-patch : length (patch code off (le_bytes 4 v)) ≡ length code
  unfolding patch le_bytes
  length-patch =
      length-append (take off code) _
      ∙ omega (arith, length-take off code, length-drop (off + 4) code)

  -- A byte outside the field stays.
  pub get_elem?-patch_outside :
      (i : ℕ)
      → (i < off) ⊎ (off + 4 ≤ i)
      → get_elem? (patch code off (le_bytes 4 v)) i ≡ get_elem? code i
  unfolding patch le_bytes
  get_elem?-patch_outside i (inl h) =
      get_elem?-append_left (take off code) _ i (omega (arith, length-take off code))
      ∙ get_elem?-take off i code h
  get_elem?-patch_outside i (inr h) =
      let k : ℕ = i - (off + 4) in
      let n : length (take off code) ≡ off = omega (arith, length-take off code) in
      let e : i - length (take off code) ≡ suc (suc (suc (suc k))) = omega (arith, n) in
      let g : k + (off + 4) ≡ i = omega arith in
      get_elem?-append_right (take off code) _ i (omega (arith, n))
      ∙ rw e (get_elem?-drop (off + 4) k code ∙ ap (get_elem? code) g)

  -- What stands before the field stays.
  pub take-patch : (n : ℕ) → n ≤ off → take n (patch code off (le_bytes 4 v)) ≡ take n code
  unfolding patch
  take-patch n h =
      take-append_le n (take off code) _ (omega (arith, length-take off code))
      ∙ take-take n off code h

  -- The field holds the new bytes.
  pub slice-patch : drop off (take (off + 4) (patch code off (le_bytes 4 v))) ≡ le_bytes 4 v
  unfolding patch le_bytes
  slice-patch =
      let n : length (take off code) ≡ off = omega (arith, length-take off code) in
      let e : take (off + 4) (take off code ++ (le_bytes 4 v ++ drop (off + 4) code))
          ≡ take off code ++ le_bytes 4 v =
        take-append_add (take off code) _ (off + 4) 4 (omega (arith, n)) ∙ refl in
      rw e (rw n at (drop-append_length (take off code) (le_bytes 4 v)))

-- The target of a fixup has an offset, and the distance to it fits the field.
abbrev pub Resolvable : Assoc ℕ → Reloc → ℕ → Type 0
Resolvable offs r t =
    (lookup r.target offs ≡ some t) × (fits (2 ^ 31) (sub_ℕ t (r.offset + 4)) ≡ true)

abbrev pub patched : Reloc → ℕ → List ℕ → List ℕ
patched r t code = patch code r.offset (le_bytes 4 (wrap (2 ^ 32) (sub_ℕ t (r.offset + 4))))

pub link_reloc-ok :
    (offs : Assoc ℕ) (r : Reloc) (code : List ℕ) (t : ℕ)
    → Resolvable offs r t
    → link_reloc offs r code ≡ ok (patched r t code)
unfolding link_reloc s32
link_reloc-ok offs r code t (h, k) = rw (h, link_reloc, k)

pub link_reloc-inv :
    (offs : Assoc ℕ) (r : Reloc) (code code' : List ℕ)
    → link_reloc offs r code ≡ ok code'
    → (t : ℕ) × Resolvable offs r t × (code' ≡ patched r t code)
unfolding link_reloc s32
link_reloc-inv offs r code code' h = elim (Option-cases (lookup r.target offs)) [
  | inl e ↦ cc (rw (e, link_reloc) at h)
  | inr (t, e) ↦ elim (Bool-cases (fits (2 ^ 31) (sub_ℕ t (r.offset + 4)))) [
    | inl f ↦ (t, (e, f), cc (rw (e, link_reloc, f) at h))
    | inr f ↦ absurd (cc (rw (e, link_reloc, f) at h))
  ]
]

-- ===== src/Elf/Pack.antt =====
-- `struct.pack`: what the packed fields read back as.
use aclmv.Prelude.{
  ℕ, zero, suc, ◌+◌, ◌-◌, ◌≤◌, ◌≡◌, ◌∙◌, refl, sym, ap, true, Bool-cases, some, List, [], ◌∷◌, ◌++◌,
  length, length-append, replicate, ltb, arith, append_assoc, append-nil, All, inl, inr,
}
use aclmv.Elf.{Field, field_bytes, in_range, pack, pad_loop, pad_to}

-- The bytes of the fields, one behind the other.
abbrev pub all_bytes : List Field → List ℕ
all_bytes [] = []
all_bytes (f ∷ fs) = field_bytes f ++ all_bytes fs

pub pack-in_range :
    (fs : List Field) → All (λ f. in_range f ≡ true) fs → pack fs ≡ some (all_bytes fs)
unfolding pack
pack-in_range [] h = refl
pack-in_range (f ∷ fs) (h, hs) = rw (h, pack-in_range fs hs)

pub pad_loop_lem :
    (fuel end : ℕ) (blob : List ℕ)
    → end ≤ fuel + length blob
    → pad_loop fuel end blob ≡ blob ++ replicate (end - length blob) 0
unfolding pad_loop
pad_loop_lem zero end blob h =
    let e : end - length blob ≡ 0 = omega arith in rw e (sym (append-nil blob))
pad_loop_lem (suc fuel) end blob h = elim (Bool-cases (ltb (length blob) end)) [
  | inl lt ↦
      let n = length-append blob (0 ∷ []) in
      let e : end - length blob ≡ suc (end - length (blob ++ (0 ∷ []))) = ground (arith, n, lt) in
      rw lt (
        pad_loop_lem fuel end (blob ++ (0 ∷ [])) (omega (arith, n))
        ∙ append_assoc blob (0 ∷ []) (replicate (end - length (blob ++ (0 ∷ []))) 0)
        ∙ ap (λ k. blob ++ replicate k 0) (sym e))
  | inr ge ↦
      let e : end - length blob ≡ 0 = ground (arith, ge) in rw (ge, e) (sym (append-nil blob))
]

-- The padding loop ends by its test and adds just the zeros that are missing.
pub pad_to_lem :
    (end : ℕ) (blob : List ℕ) → pad_to end blob ≡ blob ++ replicate (end - length blob) 0
unfolding pad_to
pad_to_lem end blob = pad_loop_lem end end blob (omega arith)

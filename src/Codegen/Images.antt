-- ===== src/Codegen/Images.antt =====
-- The image that `generate` of ACLM/codegen.py returns.
use aclmv.Prelude.{
  ℕ, ◌≡◌, refl, inl, inr, Bool, true, false, Bool-cases, String, List, [], ◌∷◌, Assoc, arith, All,
}
use aclmv.Codegen.{Generator}
use aclmv.Codegen.Generate.{
  Image, kernel, with_symtab, exe_wx, exe, image_of, sort_names, insert_name,
}
use aclmv.Prelude.{Perm}
use mathlib.Core.List.Perm
use aclmv.Prelude.Text.{codes}
use aclmv.Codegen.Generate.{before}
use aclmv.Codegen.Asserts.{map-All}

-- No entry has a name that comes before that of an earlier one.
abbrev pub Sorted : Assoc ℕ → Type 0
Sorted [] = Unit
Sorted (p ∷ l) = All (λ q. before (codes p.0) (codes q.0) ≡ true) l × Sorted l

-- The image has the code and the data, and is the one that the options choose: a kernel, a program with its
-- labels as symbols, in the order of their names, a program of two segments, or of one.
pub record ImageHas (g : Generator) (image : Image) : Type 0 where
  pub of_kernel : g.baremetal ≡ true → image ≡ kernel g.asm'.code g.data_bytes
  pub of_debug :
      g.baremetal ≡ false
      → g.debug_dwarf ≡ true
      → (syms : Assoc ℕ) × (image ≡ with_symtab g.asm'.code g.data_bytes syms)
        × Perm syms g.asm'.labels
        × Sorted syms
  pub of_wx :
      g.baremetal ≡ false
      → g.debug_dwarf ≡ false
      → g.use_wx ≡ true
      → image ≡ exe_wx g.asm'.code g.data_bytes
  pub of_plain :
      g.baremetal ≡ false
      → g.debug_dwarf ≡ false
      → g.use_wx ≡ false
      → image ≡ exe g.asm'.code g.data_bytes

before_total : (xs ys : List ℕ) → before xs ys ≡ false → before ys xs ≡ true
unfolding before
before_total [] ys h = absurd (cc)
before_total (x ∷ xs) [] h = refl
before_total (x ∷ xs) (y ∷ ys) h = ground (arith, before_total xs ys)

before_trans : (xs ys zs : List ℕ) → before xs ys ≡ true → before ys zs ≡ true → before xs zs ≡ true
unfolding before
before_trans [] ys zs h k = refl
before_trans (x ∷ xs) [] zs h k = absurd (cc)
before_trans (x ∷ xs) (y ∷ ys) [] h k = absurd (cc)
before_trans (x ∷ xs) (y ∷ ys) (z ∷ zs) h k = ground (arith, before_trans xs ys zs)

insert_name-All :
    (f : String × ℕ → Bool) (p : String × ℕ) (l : Assoc ℕ)
    → f p ≡ true
    → All (λ q. f q ≡ true) l
    → All (λ q. f q ≡ true) (insert_name p l)
unfolding insert_name
insert_name-All f p [] h hs = (h, tt)
insert_name-All f p (q ∷ l) h (k, hs) = elim (Bool-cases (before (codes p.0) (codes q.0))) [
  | inl e ↦ rw e (h, (k, hs))
  | inr e ↦ rw e (k, insert_name-All f p l h hs)
]

insert_name-Sorted : (p : String × ℕ) (l : Assoc ℕ) → Sorted l → Sorted (insert_name p l)
unfolding insert_name
insert_name-Sorted p [] h = (tt, tt)
insert_name-Sorted p (q ∷ l) (k, h) = elim (Bool-cases (before (codes p.0) (codes q.0))) [
  | inl e ↦
      rw e ((e, map-All l (λ r. before_trans (codes p.0) (codes q.0) (codes r.0) e) k), (k, h))
  | inr e ↦
      let back : before (codes q.0) (codes p.0) ≡ true = before_total (codes p.0) (codes q.0) e in
      rw e
        (insert_name-All (λ r. before (codes q.0) (codes r.0)) p l back k, insert_name-Sorted p l h)
]

sort_names-Sorted : (l : Assoc ℕ) → Sorted (sort_names l)
unfolding sort_names
sort_names-Sorted [] = tt
sort_names-Sorted (p ∷ l) = insert_name-Sorted p (sort_names l) (sort_names-Sorted l)

insert_name-Perm : (p : String × ℕ) (l : Assoc ℕ) → Perm (insert_name p l) (p ∷ l)
unfolding insert_name
insert_name-Perm p [] = Perm.rfl
insert_name-Perm p (q ∷ l) = elim (Bool-cases (before (codes p.0) (codes q.0))) [
  | inl e ↦ rw e Perm.rfl
  | inr e ↦ rw e (Perm.trans (Perm.cons q (insert_name-Perm p l)) (Perm.swap p q l))
]

sort_names-Perm : (l : Assoc ℕ) → Perm (sort_names l) l
unfolding sort_names
sort_names-Perm [] = Perm.rfl
sort_names-Perm (p ∷ l) =
    Perm.trans (insert_name-Perm p (sort_names l)) (Perm.cons p (sort_names-Perm l))

pub image_of-ImageHas : (g : Generator) → ImageHas g (image_of g)
image_of-ImageHas g = record {
  of_kernel = λ b. rw b refl;
  of_debug = λ b d. (
    sort_names g.asm'.labels,
    rw (b, d) refl,
    sort_names-Perm g.asm'.labels,
    sort_names-Sorted g.asm'.labels,
  );
  of_wx = λ b d w. rw (b, d, w) refl;
  of_plain = λ b d w. rw (b, d, w) refl;
}

-- ===== src/Prelude/Dict.antt =====
-- A Python dictionary keyed by strings, as an association list.
use Prim.Native.String.{String}
use mathlib.Core.Bool.{Bool, true, false}
use mathlib.Core.Option.{Option, none, some}
use mathlib.Core.Path.{◌≡◌, refl, sym, ◌∙◌}
use native.Mathlib.Omega.{arith}
use mathlib.Core.List.{List, [], ◌∷◌, ◌++◌}
use text.Mathlib.Text.{◌==◌}
use text.Mathlib.TextEquality.{eq_iff}
use mathlib.Core.Logic.{◌⊎◌, inl, inr}
use aclmv.Prelude.Tests.{if◌then◌else◌, Bool-cases}

abbrev pub Assoc {ℓ} : Type ℓ → Type ℓ
Assoc V = List (String × V)

module _ {ℓ} {V : Type ℓ} where
  unfoldable pub lookup : String → Assoc V → Option V
  lookup key [] = none
  lookup key ((name, value) ∷ rest) = if name == key then some value else lookup key rest

  -- `table[key] = value`: the entry keeps its place, or is the last one.
  unfoldable pub insert : String → V → Assoc V → Assoc V
  insert key value [] = (key, value) ∷ []
  insert key value ((name, old) ∷ rest) =
      let others = insert key value rest in
      if name == key then (name, value) ∷ rest else (name, old) ∷ others

  -- `key in table`
  unfoldable pub has : String → Assoc V → Bool
  has key [] = false
  has key ((name, value) ∷ rest) = let later = has key rest in if name == key then true else later

  -- What is found stays found when entries come behind it.
  pub lookup-before :
      {v : V} (key : String) (front back : Assoc V)
      → lookup key front ≡ some v
      → lookup key (front ++ back) ≡ some v
  unfolding lookup
  lookup-before {v} key ((name, value) ∷ front) back h =
      ground (arith, lookup-before {v = v} key front back)
  lookup-before key [] back h = ground arith

  -- What is not found in front is found behind.
  pub lookup-behind :
      (key : String) (front back : Assoc V)
      → lookup key front ≡ none
      → lookup key (front ++ back) ≡ lookup key back
  unfolding lookup
  lookup-behind key ((name, value) ∷ front) back h = ground (arith, lookup-behind key front back)
  lookup-behind key [] back h = refl

  -- An assignment changes its own key and no other.
  pub lookup-insert :
      (a key : String) (v : V) (t : Assoc V)
      → lookup a (insert key v t) ≡ (if key == a then some v else lookup a t)
  unfolding lookup insert
  lookup-insert a key v [] = refl
  lookup-insert a key v ((name, old) ∷ t) = elim (Bool-cases (name == key)) [
    | inl e ↦
        let q : name ≡ key = (eq_iff name key).0 e in
        rw (e, q) (elim (Bool-cases (key == a)) [ inl k ↦ rw k refl | inr k ↦ rw k refl ])
    | inr e ↦ elim (Bool-cases (name == a)) [
      | inl h ↦ elim (Bool-cases (key == a)) [
        | inl k ↦
            let p : name ≡ key = (eq_iff name a).0 h ∙ sym ((eq_iff key a).0 k) in
            let both = (eq_iff name key).1 p in absurd (cc)
        | inr k ↦ rw (e, h, k) refl
      ]
      | inr h ↦ rw (e, h) (lookup-insert a key v t)
    ]
  ]

-- A name that is found behind an insertion is the key, or was found before it.
pub lookup-insert-inv :
    {V : Type 0} (a key : String) (v w : V) (t : Assoc V)
    → lookup a (insert key v t) ≡ some w
    → ((key ≡ a) × (v ≡ w)) ⊎ (((key == a) ≡ false) × (lookup a t ≡ some w))
lookup-insert-inv a key v w t h = elim (Bool-cases (key == a)) [
  | inl e ↦
      let q : some v ≡ some w = rw (lookup-insert a key v t, e) at h in inl ((eq_iff key a).0 e, cc)
  | inr e ↦ inr (e, rw (lookup-insert a key v t, e) at h)
]

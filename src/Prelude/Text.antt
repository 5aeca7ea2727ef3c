-- ===== src/Prelude/Text.antt =====
-- Text as a list of code points, where the program looks inside it: Python's `strip` and `lower`, and
-- tables whose keys are texts. `lower` is on ASCII letters: no other character lowers to a letter that a
-- table of this program holds.
use Prim.Native.Char.{code}
use Prim.Native.String.{String, ◌++◌ as str_append}
use Prim.Native.String.append
use Prim.Native.Nat.{ℕ, ◌+◌, ◌/◌, ◌%◌}
use mathlib.Core.Path.{◌≡◌, refl, sym, ◌∙◌, ap₂}
use mathlib.Core.Bool.{Bool, true, false, ◌&&◌, ◌||◌}
use mathlib.Core.Option.{Option, none, some}
use mathlib.Core.List.{List, [], ◌∷◌, ◌++◌, map, reverse}
use native.Mathlib.Omega.{arith}
use aclmv.Prelude.Tests.{leb, ltb, ◌==◌, if◌then◌else◌, Bool-cases}
use mathlib.Core.Logic.{inl, inr}
use aclmv.Prelude.Dict.{Assoc}

abbrev pub codes : String → List ℕ
codes String.[] = []
codes (String.◌∷◌ c s) = code c ∷ codes s

unfoldable pub same_text : List ℕ → List ℕ → Bool
same_text [] [] = true
same_text [] (y ∷ ys) = false
same_text (x ∷ xs) [] = false
same_text (x ∷ xs) (y ∷ ys) = x == y && same_text xs ys

pub same_text-eq : (xs ys : List ℕ) → same_text xs ys ≡ true → xs ≡ ys
unfolding same_text
same_text-eq [] [] h = refl
same_text-eq [] (y ∷ ys) h = cc
same_text-eq (x ∷ xs) [] h = cc
same_text-eq (x ∷ xs) (y ∷ ys) h =
    ap₂ (λ a b. a ∷ b) (ground arith) (same_text-eq xs ys (ground arith))

-- str.isspace, for one character.
unfoldable pub is_space : ℕ → Bool
is_space c =
    (leb 9 c && leb c 13)
    || (leb 28 c && leb c 32)
    || c == 0x85
    || c == 0xa0
    || c == 0x1680
    || (leb 0x2000 c && leb c 0x200a)
    || c == 0x2028
    || c == 0x2029
    || c == 0x202f
    || c == 0x205f
    || c == 0x3000

-- `text.startswith(prefix)`
unfoldable pub starts_with : List ℕ → List ℕ → Bool
starts_with [] s = true
starts_with (x ∷ xs) [] = false
starts_with (x ∷ xs) (y ∷ ys) = x == y && starts_with xs ys

pub starts_with-append : (s t : String) → starts_with (codes s) (codes (str_append s t)) ≡ true
unfolding starts_with
starts_with-append String.[] t = refl
starts_with-append (String.◌∷◌ c s) t = rw append.cons (ground (arith, starts_with-append s t))

pub append_cancel : (s a b : String) → str_append s a ≡ str_append s b → a ≡ b
append_cancel String.[] a b h = sym (append.nil a) ∙ h ∙ append.nil b
append_cancel (String.◌∷◌ c s) a b h = append_cancel s a b (
    let p : String.◌∷◌ c (str_append s a) ≡ String.◌∷◌ c (str_append s b) =
      sym (append.cons c s a) ∙ h ∙ append.cons c s b in
    cc)

-- `text.encode("utf-8")`
abbrev utf8_char : ℕ → List ℕ
utf8_char c =
    if ltb c 0x80
    then c ∷ []
    else (if ltb c 0x800
        then (0xc0 + c / 0x40) ∷ (0x80 + c % 0x40) ∷ []
        else (if ltb c 0x10000
            then (0xe0 + c / 0x1000) ∷ (0x80 + c / 0x40 % 0x40) ∷ (0x80 + c % 0x40) ∷ []
            else (0xf0 + c / 0x40000)
              ∷ (0x80 + c / 0x1000 % 0x40)
              ∷ (0x80 + c / 0x40 % 0x40)
              ∷ (0x80 + c % 0x40)
              ∷ []))

unfoldable pub utf8 : List ℕ → List ℕ
utf8 [] = []
utf8 (c ∷ s) = utf8_char c ++ utf8 s

unfoldable pub lstrip : List ℕ → List ℕ
unfolding is_space
lstrip [] = []
lstrip (c ∷ s) = if is_space c then lstrip s else c ∷ s

unfoldable pub strip : List ℕ → List ℕ
unfolding lstrip
strip s = reverse (lstrip (reverse (lstrip s)))

unfoldable pub lower_char : ℕ → ℕ
lower_char c = if leb b'A' c && leb c b'Z' then c + 32 else c

abbrev pub lower : List ℕ → List ℕ
lower = map lower_char

-- `key in names`, for a collection of names.
unfoldable pub is_in : List ℕ → List String → Bool
unfolding same_text
is_in key [] = false
is_in key (k ∷ ks) = same_text (codes k) key || is_in key ks

-- `table.get(key)`
module _ {ℓ} {V : Type ℓ} where
  unfoldable pub find : List ℕ → Assoc V → Option V
  unfolding same_text
  find key [] = none
  find key ((k, v) ∷ t) = if same_text (codes k) key then some v else find key t

  -- Whether every entry passes a test.
  unfoldable pub every : (List ℕ → V → Bool) → Assoc V → Bool
  every p [] = true
  every p ((k, v) ∷ t) = p (codes k) v && every p t

  pub find-every :
      (p : List ℕ → V → Bool) (key : List ℕ) (t : Assoc V) {v : V}
      → every p t ≡ true
      → find key t ≡ some v
      → p key v ≡ true
  unfolding find every
  find-every p key [] h e = cc
  find-every p key ((k, w) ∷ t) {v} h e = elim (Bool-cases (same_text (codes k) key)) [
    | inl q ↦
        let same : some w ≡ some v = rw q at e in
        let passed : p (codes k) w ≡ true = ground arith in
        cc (passed, same_text-eq (codes k) key q, same)
    | inr q ↦ find-every p key t (ground arith) (rw q at e)
  ]

-- Whether every name passes a test.
unfoldable pub each : (List ℕ → Bool) → List String → Bool
each p [] = true
each p (k ∷ ks) = p (codes k) && each p ks

pub is_in-each :
    (p : List ℕ → Bool) (key : List ℕ) (ks : List String)
    → each p ks ≡ true
    → is_in key ks ≡ true
    → p key ≡ true
unfolding each is_in
is_in-each p key [] h e = cc
is_in-each p key (k ∷ ks) h e = elim (Bool-cases (same_text (codes k) key)) [
  | inl q ↦
      let passed : p (codes k) ≡ true = ground arith in cc (passed, same_text-eq (codes k) key q)
  | inr q ↦ is_in-each p key ks (ground arith) (rw q at e)
]

-- ===== src/Codegen/Asserts.antt =====
-- The asserts of a program (`_run_asserts` of ACLM/codegen.py).
use aclmv.Prelude.{
  ℕ, ◌+◌, ◌≡◌, ◌≤◌, ◌<◌, ◌≢◌, ◌⊎◌, ◌∙◌, refl, sym, ap, inl, inr, Bool, true, false, Bool-cases, not,
  ◌&&◌, String, str_eq, eq_iff, none, some, Option-cases, List, [], ◌∷◌, if◌then◌else◌, length,
  lookup, Assoc, arith, All, ◌==◌, ltb, leb,
}
use aclmv.Codegen.{
  Generator, Gen, ByteAssert, done, ◌>>=◌, pure, skip, raise, get, when, for_each, lbl,
}
use aclmv.Codegen.Generate.{run_asserts, check_bytes, check_size, asserted_size, label_or}
use aclmv.Codegen.Traced.{run-inv}

-- A method that only reads.
pub record Reads {A : Type 0} (m : Gen A) : Type 0 where
  pub at : (g g' : Generator) (a : A) → m g ≡ done a g' → g ≡ g'

Reads-bind :
    {A B : Type 0} (m : Gen A) (k : A → Gen B) → Reads m → ((a : A) → Reads (k a)) → Reads (m >>= k)
Reads-bind m k hm hk = record {
  at = λ g g' b h. let (a, t, p, q) = run-inv m k g g' b h in hm.at g t a p ∙ (hk a).at t g' b q;
}

Reads-get : Reads get
unfolding get
Reads-get = record { at = λ g g' a h. cc }

Reads-skip : Reads skip
unfolding skip pure
Reads-skip = record { at = λ g g' a h. cc }

Reads-raise : {A : Type 0} (x : _) → Reads {A = A} (raise x)
unfolding raise
Reads-raise x = record { at = λ g g' a h. absurd (cc) }

Reads-when : (b : Bool) (m : Gen (Unit {0})) → Reads m → Reads (when b m)
Reads-when true m h = h
Reads-when false m h = Reads-skip

Reads-for_each :
    {A : Type 0} (xs : List A) (f : A → Gen (Unit {0}))
    → ((x : A) → Reads (f x))
    → Reads (for_each xs f)
unfolding for_each
Reads-for_each [] f h = Reads-skip
Reads-for_each (x ∷ xs) f h = Reads-bind _ _ (h x) λ _. Reads-for_each xs f h

Reads-check_bytes : (a : ByteAssert) → Reads (check_bytes a)
unfolding check_bytes
Reads-check_bytes a =
    Reads-bind _ _ Reads-get
      λ h. Reads-bind _ _ (Reads-when _ _ (Reads-raise _)) λ _. Reads-when _ _ (Reads-raise _)

Reads-check_size : (p : String × ℕ) → Reads (check_size p)
unfolding check_size
Reads-check_size p = Reads-bind _ _ Reads-get λ h. Reads-when _ _ (Reads-raise _)

pub Reads-run_asserts : Reads run_asserts
unfolding run_asserts
Reads-run_asserts = Reads-bind _ _ Reads-get λ g.
    Reads-bind _ _ (Reads-for_each g.assert_bytes check_bytes Reads-check_bytes)
      λ _. Reads-for_each g.assert_sizes check_size Reads-check_size

-- Where the bytes that an assert counts start: at the label of the program, or else at the label of the code
-- generator with that name, or else at the start of the code.
abbrev pub StartsAt : Assoc ℕ → String → ℕ → Type 0
StartsAt labels name n =
    (lookup (lbl name) labels ≡ some n)
    ⊎ ((lookup (lbl name) labels ≡ none)
        × ((lookup name labels ≡ some n) ⊎ ((lookup name labels ≡ none) × (n ≡ 0))))

-- The bytes from the start to where the assert stands, or the whole code when the start lies behind it, are as
-- many as the assert says, or at most as many.
pub record BytesHold (g : Generator) (a : ByteAssert) : Type 0 where
  pub from : ℕ
  pub size : ℕ
  pub starts : StartsAt g.asm'.labels a.name from
  pub counted : (from + size ≡ a.code_off) ⊎ ((a.code_off < from) × (size ≡ length g.asm'.code))
  pub equal : a.op ≡ "eq" → size ≡ a.limit
  pub at_most : a.op ≡ "le" → size ≤ a.limit

-- The code, or else the data, has at most as many bytes.
abbrev pub SizeHolds : Generator → String × ℕ → Type 0
SizeHolds g p =
    (p.0 ≡ "code" → length g.asm'.code ≤ p.1) × (p.0 ≢ "code" → length g.data_bytes ≤ p.1)

for_each-All :
    {A : Type 0} (xs : List A) (f : A → Gen (Unit {0})) (g g' : Generator)
    → ((x : A) → Reads (f x))
    → for_each xs f g ≡ done tt g'
    → All (λ x. f x g ≡ done tt g) xs
unfolding for_each
for_each-All [] f g g' r h = tt
for_each-All (x ∷ xs) f g g' r h =
    let (_, t, p, q) = run-inv (f x) (λ _. for_each xs f) g g' tt h in
    let same : g ≡ t = (r x).at g t tt p in
    (p ∙ ap (done tt) (sym same), for_each-All xs f g g' r (rw (← same) at q))

passed : (c : Bool) (x : _) (g g' : Generator) → when c (raise x) g ≡ done tt g' → c ≡ false
unfolding raise skip pure
passed true x g g' h = absurd (cc)
passed false x g g' h = refl

starts_lem :
    (labels : Assoc ℕ) (name : String)
    → StartsAt labels name (label_or (lookup (lbl name) labels) (lookup name labels))
starts_lem labels name = elim (Option-cases (lookup (lbl name) labels)) [
  | inr (n, e) ↦ inl (rw e refl)
  | inl e ↦ elim (Option-cases (lookup name labels)) [
    | inr (n, f) ↦ inr (e, inl (rw (e, f) refl))
    | inl f ↦ inr (e, inr (f, rw (e, f) refl))
  ]
]

BytesHold-check_bytes :
    (a : ByteAssert) (g : Generator) → check_bytes a g ≡ done tt g → BytesHold g a
unfolding check_bytes get pure ◌>>=◌
BytesHold-check_bytes a g h =
    let (_, t, p, q) =
      run-inv (when (str_eq a.op "eq" && not (asserted_size g.asm' a == a.limit)) _) _ g g tt h in
    let here : g ≡ t = (Reads-when _ _ (Reads-raise _)).at g t tt p in
    let exact = passed (str_eq a.op "eq" && not (asserted_size g.asm' a == a.limit)) _ g t p in
    let bounded = passed (str_eq a.op "le" && ltb a.limit (asserted_size g.asm' a)) _ t g q in
    record {
      from = start;
      size = asserted_size g.asm' a;
      starts = starts_lem g.asm'.labels a.name;
      counted = elim (Bool-cases (leb start a.code_off)) [
        | inl e ↦ inl (ground arith)
        | inr e ↦ inr (ground arith)
      ];
      equal = λ e. let s : str_eq a.op "eq" ≡ true = (eq_iff a.op "eq").1 e in ground arith;
      at_most = λ e. let s : str_eq a.op "le" ≡ true = (eq_iff a.op "le").1 e in ground arith;
    }
  where
    start : ℕ
    start = label_or (lookup (lbl a.name) g.asm'.labels) (lookup a.name g.asm'.labels)

SizeHolds-check_size : (p : String × ℕ) (g : Generator) → check_size p g ≡ done tt g → SizeHolds g p
unfolding check_size get pure ◌>>=◌
SizeHolds-check_size p g h =
    let bounded =
      passed (ltb p.1 (if str_eq p.0 "code" then length g.asm'.code else length g.data_bytes)) _ g g
        h in
    elim (Bool-cases (str_eq p.0 "code")) [
      | inl e ↦
          (λ _. let b = rw e at bounded in ground arith, λ n. absurd (n ((eq_iff p.0 "code").0 e)))
      | inr e ↦ (
        λ q. let t = (eq_iff p.0 "code").1 q in absurd (cc),
        λ _. let b = rw e at bounded in ground arith,
      )
    ]

pub map-All :
    {A : Type 0} {P Q : A → Type 0} (xs : List A) → ((x : A) → P x → Q x) → All P xs → All Q xs
map-All [] f h = tt
map-All (x ∷ xs) f (p, h) = (f x p, map-All xs f h)

pub run_asserts_lem :
    (g : Generator)
    → run_asserts g ≡ done tt g
    → All (BytesHold g) g.assert_bytes × All (SizeHolds g) g.assert_sizes
unfolding run_asserts get ◌>>=◌
run_asserts_lem g h =
    let (_, t, p, q) =
      run-inv (for_each g.assert_bytes check_bytes) (λ _. for_each g.assert_sizes check_size) g g tt
        h in
    let here : g ≡ t = (Reads-for_each g.assert_bytes check_bytes Reads-check_bytes).at g t tt p in
    let bytes = for_each-All g.assert_bytes check_bytes g t Reads-check_bytes p in
    let sizes = for_each-All g.assert_sizes check_size g g Reads-check_size (rw (sym here) at q) in
    (
      map-All g.assert_bytes (λ a. BytesHold-check_bytes a g) bytes,
      map-All g.assert_sizes (λ s. SizeHolds-check_size s g) sizes,
    )

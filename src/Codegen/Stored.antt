-- ===== src/Codegen/Stored.antt =====
-- The data that the statements of a program define, and what it means that it is laid out.
use aclmv.Prelude.{
  ℕ, zero, suc, ◌+◌, ◌%◌, ◌≤◌, ◌≡◌, ◌≢◌, ◌⊎◌, ◌∙◌, refl, sym, ap, String, str_eq, eq_iff, true,
  Option, some, none, inl, inr, List, [], ◌∷◌, ◌++◌, length, length-append, length-drop, replicate,
  take, drop, take-append_le, drop-append_length, lookup, insert, lookup-insert, lookup-insert-inv,
  arith, Assoc, ◌^◌,
}
use aclmv.Prelude.Int.{wrap}
use aclmv.Prelude.Text.{codes, utf8}
use aclmv.Ast.Expr.{Expr, Size}
use aclmv.Ast.Stmt.{Stmt, at, Nodes, nil, cons}
use aclmv.Encoder.{le_bytes}
use aclmv.Codegen.{Struct, Generator}

-- What a statement stores under a name: the bytes, and the alignment that the program asks for in front of it.
pub record Datum : Type 0 where
  pub bytes : List ℕ
  pub align : ℕ

abbrev pub size_of : Option Struct → ℕ
size_of none = 0
size_of (some t) = t.size

abbrev pub size_in : Assoc Struct → Size → ℕ
size_in structs (Size.of_bytes n) = n
size_in structs (Size.of_struct name) = size_of (lookup name structs)

abbrev pub const_bytes : Expr → Option (List ℕ)
const_bytes (Expr.number v) = some (le_bytes 8 (wrap (2 ^ 64) v))
const_bytes (Expr.string text) = some (utf8 (codes text) ++ (0 ∷ []))
const_bytes _ = none

-- The bytes that a statement stores: zeros, the bytes that it lists, a word, or a text with a zero behind it.
abbrev pub stored : Assoc Struct → Stmt → Option (List ℕ)
stored structs (Stmt.data_alloc s) = some (replicate (size_in structs s.size) 0)
stored structs (Stmt.data_bytes s) = some s.values
stored structs (Stmt.data_const s) = const_bytes s.value
stored structs _ = none

abbrev pub name_of : Stmt → String
name_of (Stmt.data_alloc s) = s.name
name_of (Stmt.data_bytes s) = s.name
name_of (Stmt.data_const s) = s.name
name_of _ = ""

-- The alignment in front of what follows a statement: an `align` asks for one, which a datum uses up.
abbrev pub aligned_to : ℕ → Stmt → ℕ
aligned_to al (Stmt.data_align s) = s.align
aligned_to al (Stmt.data_alloc s) = 1
aligned_to al (Stmt.data_bytes s) = 1
aligned_to al (Stmt.data_const s) = 1
aligned_to al _ = al

abbrev pub define : String → ℕ → Option (List ℕ) → Assoc Datum → Assoc Datum
define name al none t = t
define name al (some bs) t = insert name (record { bytes = bs; align = al }) t

-- The data of a program by name, read off its statements; of two with one name the later one counts.
abbrev pub contents : Assoc Struct → ℕ → Assoc Datum → Nodes → Assoc Datum
contents structs al t nil = t
contents structs al t (cons (at line col s) ns) =
    contents structs (aligned_to al s) (define (name_of s) al (stored structs s) t) ns

-- The bytes of a datum are in the data at an address that has its alignment.
pub record StoredAt (data' : List ℕ) (a : ℕ) (d : Datum) : Type 0 where
  pub reads : take (length d.bytes) (drop a data') ≡ d.bytes
  pub fits : a + length d.bytes ≤ length data'
  pub aligned : a % d.align ≡ 0

-- Every name has an address at which its datum is stored, and no two data overlap.
pub record Placed (t : Assoc Datum) (g : Generator) : Type 0 where
  pub placed :
      (name : String) (d : Datum)
      → lookup name t ≡ some d
      → (a : ℕ) × (lookup name g.data_layout ≡ some a) × StoredAt g.data_bytes a d
  pub apart :
      (m n : String) (d e : Datum) (a b : ℕ)
      → m ≢ n
      → lookup m t ≡ some d
      → lookup n t ≡ some e
      → lookup m g.data_layout ≡ some a
      → lookup n g.data_layout ≡ some b
      → (a + length d.bytes ≤ b) ⊎ (b + length e.bytes ≤ a)

drop-append_le : (n : ℕ) (xs ys : List ℕ) → n ≤ length xs → drop n (xs ++ ys) ≡ drop n xs ++ ys
drop-append_le zero xs ys h = refl
drop-append_le (suc n) [] ys h = absurd (omega arith)
drop-append_le (suc n) (x ∷ xs) ys h = drop-append_le n xs ys (omega arith)

take_all : (xs : List ℕ) → take (length xs) xs ≡ xs
take_all [] = refl
take_all (x ∷ xs) = ap (λ t. x ∷ t) (take_all xs)

StoredAt-append : (xs ys : List ℕ) (a : ℕ) (d : Datum) → StoredAt xs a d → StoredAt (xs ++ ys) a d
StoredAt-append xs ys a d s =
    let f : a + length d.bytes ≤ length xs = s.fits in
    record {
      reads = rw (drop-append_le a xs ys (omega arith)) (
          take-append_le (length d.bytes) (drop a xs) ys (omega (arith, length-drop a xs))
          ∙ s.reads);
      fits = omega (arith, length-append xs ys);
      aligned = s.aligned;
    }

StoredAt-end :
    (xs bs : List ℕ) (al : ℕ)
    → length xs % al ≡ 0
    → StoredAt (xs ++ bs) (length xs) (record { bytes = bs; align = al })
StoredAt-end xs bs al h = record {
  reads = rw (drop-append_length xs bs) (take_all bs);
  fits = omega (arith, length-append xs bs);
  aligned = h;
}

-- More bytes behind the data leave everything where it is.
pub Placed-grow :
    (t : Assoc Datum) (g g' : Generator) (bs : List ℕ)
    → g'.data_layout ≡ g.data_layout
    → g'.data_bytes ≡ g.data_bytes ++ bs
    → Placed t g
    → Placed t g'
Placed-grow t g g' bs l b p = record {
  placed = λ name d h.
      let (a, q, s) = p.placed name d h in
      (a, rw l q, rw b (StoredAt-append g.data_bytes bs a d s));
  apart = λ m n d e a b ne hd he ha hb. p.apart m n d e a b ne hd he (rw l at ha) (rw l at hb);
}

-- A lookup of one name in two tables into which the same key goes.
both :
    (name key : String) (v d : Datum) (w a : ℕ) (t : Assoc Datum) (l : Assoc ℕ)
    → lookup name (insert key v t) ≡ some d
    → lookup name (insert key w l) ≡ some a
    → ((key ≡ name) × (v ≡ d) × (w ≡ a)) ⊎ ((lookup name t ≡ some d) × (lookup name l ≡ some a))
both name key v d w a t l h k = elim (lookup-insert-inv name key v d t h) [
  | inl (p, q) ↦ elim (lookup-insert-inv name key w a l k) [
    | inl (_, r) ↦ inl (p, q, r)
    | inr (n, _) ↦ let same : str_eq key name ≡ true = (eq_iff key name).1 p in absurd (cc)
  ]
  | inr (n, q) ↦ elim (lookup-insert-inv name key w a l k) [
    | inl (p, _) ↦ let same : str_eq key name ≡ true = (eq_iff key name).1 p in absurd (cc)
    | inr (_, r) ↦ inr (q, r)
  ]
]

-- What was stored before a datum ends at or before the end of the data.
before_end :
    (t : Assoc Datum) (g : Generator) (name : String) (d : Datum) (a : ℕ)
    → Placed t g
    → lookup name t ≡ some d
    → lookup name g.data_layout ≡ some a
    → a + length d.bytes ≤ length g.data_bytes
before_end t g name d a p h k =
    let (b, q, s) = p.placed name d h in
    let same : b ≡ a = let u : some b ≡ some a = sym q ∙ k in cc in rw (← same) s.fits

pub Placed-insert :
    (t : Assoc Datum) (g g' : Generator) (name : String) (al : ℕ) (bs : List ℕ)
    → length g.data_bytes % al ≡ 0
    → g'.data_layout ≡ insert name (length g.data_bytes) g.data_layout
    → g'.data_bytes ≡ g.data_bytes ++ bs
    → Placed t g
    → Placed (insert name (record { bytes = bs; align = al }) t) g'
Placed-insert t g g' name al bs ready l b p = record {
  placed = λ n d h. elim (lookup-insert-inv n name new d t h) [
    | inl (q, r) ↦
        let same : str_eq name n ≡ true = (eq_iff name n).1 q in
        let s = StoredAt-end g.data_bytes bs al ready in
        (off, rw (l, lookup-insert n name off g.data_layout, same) refl, rw (b, sym r) s)
    | inr (q, r) ↦
        let (a, u, s) = p.placed n d r in
        (
          a,
          rw (l, lookup-insert n name off g.data_layout, q) u,
          rw b (StoredAt-append g.data_bytes bs a d s),
        )
  ];
  apart = λ m n d e a c ne hd he ha hc.
      elim (both m name new d off a t g.data_layout hd (rw l at ha)) [
        | inl (q, _, r) ↦ elim (both n name new e off c t g.data_layout he (rw l at hc)) [
          | inl (u, _, _) ↦ absurd (ne (sym q ∙ u))
          | inr (u, v) ↦ inr (let f = before_end t g n e c p u v in rw (sym r) f)
        ]
        | inr (q, r) ↦ elim (both n name new e off c t g.data_layout he (rw l at hc)) [
          | inl (_, _, v) ↦ inl (let f = before_end t g m d a p q r in rw (sym v) f)
          | inr (u, v) ↦ p.apart m n d e a c ne q u r v
        ]
      ];
}
  where
    off : ℕ
    off = length g.data_bytes

    new : Datum
    new = record { bytes = bs; align = al }

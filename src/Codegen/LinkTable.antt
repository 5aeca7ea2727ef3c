-- ===== src/Codegen/LinkTable.antt =====
-- The table of offsets that `generate` of ACLM/codegen.py links a program with.
use aclmv.Prelude.{
  ℕ, ◌+◌, ◌≡◌, ◌⊎◌, ◌∙◌, refl, sym, ap, inl, inr, Bool, true, false, Bool-cases, String, str_eq,
  eq_iff, none, some, Option-cases, [], ◌∷◌, ◌++◌, if◌then◌else◌, length, reverse, reverse-cons,
  lookup, insert, lookup-insert, lookup-before, lookup-behind, Assoc, arith,
}
use aclmv.Prelude.Text.{codes, starts_with, append_cancel, starts_with-append}
use aclmv.Elf.{wx_code_data_file_offsets}
use aclmv.Codegen.{Generator, data_label}
use aclmv.Codegen.Generate.{data_offsets, wx_pad, pad_data, link_offsets}

-- Where the byte `a` of the data is, from the start of the code: behind the code, or, where code and data are
-- segments of their own, as far from it as their places in the file are apart.
abbrev pub DataAt : Generator → ℕ → ℕ → Type 0
DataAt g a t =
    let file = wx_code_data_file_offsets (length g.asm'.code) in
    ((g.use_wx ≡ false) × (t ≡ length g.asm'.code + a))
    ⊎ ((g.use_wx ≡ true) × (file.0 + t ≡ file.1 + a))

abbrev pub is_data : String → Bool
is_data name = starts_with (codes "__data_") (codes name)

-- A label of the code has its offset in the code. The label of a name of the data has the place of its byte; of
-- two entries with one name, which a dictionary has not, the last one would count.
pub record LinkTable (g : Generator) (offs : Assoc ℕ) : Type 0 where
  pub of_code :
      (name : String) → is_data name ≡ false → lookup name offs ≡ lookup name g.asm'.labels
  pub of_data :
      (name : String) (a : ℕ)
      → lookup name (reverse g.data_layout) ≡ some a
      → (t : ℕ) × (lookup (data_label name) offs ≡ some t) × DataAt g a t

is_data-data_label : (name : String) → is_data (data_label name) ≡ true
is_data-data_label name = starts_with-append "__data_" name

not_data : (n name : String) → is_data name ≡ false → str_eq (data_label n) name ≡ false
not_data n name h = elim (Bool-cases (str_eq (data_label n) name)) [
  | inl e ↦
      let q : is_data name ≡ true =
        rw ((eq_iff (data_label n) name).0 e) at (is_data-data_label n) in
      absurd (cc)
  | inr e ↦ e
]

data_offsets-code :
    (c : ℕ) (name : String) (l offs : Assoc ℕ)
    → is_data name ≡ false
    → lookup name (data_offsets c l offs) ≡ lookup name offs
unfolding data_offsets
data_offsets-code c name [] offs h = refl
data_offsets-code c name ((n, a) ∷ l) offs h =
    data_offsets-code c name l (insert (data_label n) (c + a) offs) h
    ∙ rw (lookup-insert name (data_label n) (c + a) offs, not_data n name h) refl

-- A name that the layout has not leaves its label as it was.
data_offsets-absent :
    (c : ℕ) (name : String) (l offs : Assoc ℕ)
    → lookup name (reverse l) ≡ none
    → lookup (data_label name) (data_offsets c l offs) ≡ lookup (data_label name) offs
unfolding data_offsets lookup
data_offsets-absent c name [] offs h = refl
data_offsets-absent c name ((n, a) ∷ l) offs h =
    let k : lookup name (reverse l ++ ((n, a) ∷ [])) ≡ none = rw (reverse-cons (n, a) l) at h in
    elim (Option-cases (lookup name (reverse l))) [
      | inr (b, e) ↦ let q = lookup-before name (reverse l) ((n, a) ∷ []) e in absurd (cc)
      | inl e ↦
          let q : (if str_eq n name then some a else none) ≡ none =
            sym (lookup-behind name (reverse l) ((n, a) ∷ []) e) ∙ k in
          elim (Bool-cases (str_eq n name)) [
            | inl r ↦ let bad = rw r at q in absurd (cc)
            | inr r ↦
                data_offsets-absent c name l (insert (data_label n) (c + a) offs) e
                ∙ rw (lookup-insert (data_label name) (data_label n) (c + a) offs, other n name r)
                    refl
          ]
    ]
  where
    other :
        (n name : String) → str_eq n name ≡ false → str_eq (data_label n) (data_label name) ≡ false
    other n name r = elim (Bool-cases (str_eq (data_label n) (data_label name))) [
      | inl e ↦
          let p : n ≡ name =
            append_cancel "__data_" n name ((eq_iff (data_label n) (data_label name)).0 e) in
          let t = (eq_iff n name).1 p in absurd (cc)
      | inr e ↦ e
    ]

data_offsets-data :
    (c : ℕ) (name : String) (a : ℕ) (l offs : Assoc ℕ)
    → lookup name (reverse l) ≡ some a
    → lookup (data_label name) (data_offsets c l offs) ≡ some (c + a)
unfolding data_offsets lookup
data_offsets-data c name a [] offs h = absurd (cc)
data_offsets-data c name a ((n, b) ∷ l) offs h =
    let k : lookup name (reverse l ++ ((n, b) ∷ [])) ≡ some a = rw (reverse-cons (n, b) l) at h in
    elim (Option-cases (lookup name (reverse l))) [
      | inr (v, e) ↦
          let q : some v ≡ some a = sym (lookup-before name (reverse l) ((n, b) ∷ []) e) ∙ k in
          data_offsets-data c name a l _ (e ∙ q)
      | inl e ↦
          let q : (if str_eq n name then some b else none) ≡ some a =
            sym (lookup-behind name (reverse l) ((n, b) ∷ []) e) ∙ k in
          elim (Bool-cases (str_eq n name)) [
            | inr r ↦ let bad = rw r at q in absurd (cc)
            | inl r ↦
                let p : n ≡ name = (eq_iff n name).0 r in
                let v : some b ≡ some a = rw r at q in
                let same : str_eq (data_label n) (data_label name) ≡ true =
                  (eq_iff (data_label n) (data_label name)).1 (ap data_label p) in
                data_offsets-absent c name l (insert (data_label n) (c + b) offs) e
                ∙ rw (lookup-insert (data_label name) (data_label n) (c + b) offs, same)
                    (let w : b ≡ a = cc in ap (λ x. some (c + x)) w)
          ]
    ]

-- The padding moves the data labels and no other.
pad_data-data :
    (p t : ℕ) (name : String) (l : Assoc ℕ)
    → is_data name ≡ true
    → lookup name l ≡ some t
    → lookup name (pad_data p l) ≡ some (t + p)
unfolding pad_data lookup
pad_data-data p t name [] h e = absurd (cc)
pad_data-data p t name ((n, a) ∷ l) h e = elim (Bool-cases (str_eq n name)) [
  | inl r ↦
      let q : some a ≡ some t = rw r at e in
      let w : a ≡ t = cc in
      let d : is_data n ≡ true = rw (sym ((eq_iff n name).0 r)) at h in
      rw (r, d) (ap (λ x. some (x + p)) w)
  | inr r ↦ rw r (pad_data-data p t name l h (rw r at e))
]

pad_data-code :
    (p : ℕ) (name : String) (l : Assoc ℕ)
    → is_data name ≡ false
    → lookup name (pad_data p l) ≡ lookup name l
unfolding pad_data lookup
pad_data-code p name [] h = refl
pad_data-code p name ((n, a) ∷ l) h = elim (Bool-cases (str_eq n name)) [
  | inl r ↦ let d : is_data n ≡ false = rw (sym ((eq_iff n name).0 r)) at h in rw (r, d) refl
  | inr r ↦ rw r (pad_data-code p name l h)
]

file_gap :
    (c a : ℕ)
    → (wx_code_data_file_offsets c).0 + ((c + a) + wx_pad c) ≡ (wx_code_data_file_offsets c).1 + a
unfolding wx_code_data_file_offsets
file_gap c a = omega arith

pub link_offsets-LinkTable : (g : Generator) → LinkTable g (link_offsets g)
unfolding link_offsets
link_offsets-LinkTable g = elim (Bool-cases g.use_wx) [
  | inl e ↦ record {
    of_code = λ name h.
        rw e
          (pad_data-code pad name offs h ∙ data_offsets-code c name g.data_layout g.asm'.labels h);
    of_data = λ name a h.
        let t = data_offsets-data c name a g.data_layout g.asm'.labels h in
        (
          (c + a) + pad,
          rw e (pad_data-data pad (c + a) (data_label name) offs (is_data-data_label name) t),
          inr (e, file_gap c a),
        );
  }
  | inr e ↦ record {
    of_code = λ name h. rw e (data_offsets-code c name g.data_layout g.asm'.labels h);
    of_data = λ name a h.
        (c + a, rw e (data_offsets-data c name a g.data_layout g.asm'.labels h), inl (e, refl));
  }
]
  where
    c : ℕ
    c = length g.asm'.code

    pad : ℕ
    pad = wx_pad c

    offs : Assoc ℕ
    offs = data_offsets c g.data_layout g.asm'.labels

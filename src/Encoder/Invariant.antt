-- ===== src/Encoder/Invariant.antt =====
-- The invariant of the assembler that `link` relies on, and how its parts grow.
use aclmv.Prelude.{
  ℕ, ◌+◌, ◌≤◌, ◌≡◌, ◌∙◌, sym, ap, String, List, [], ◌∷◌, ◌++◌, arith, length, length-append,
  append_assoc, append-nil, All, All-append, Assoc,
}
use aclmv.Encoder.{Reloc, Assembler, zeros, init}
use aclmv.Encoder.Linking.{Apart}

-- Every fixup is a field inside the code, in order and apart, and every label lies inside the code or at
-- its end.
pub record IsValid (s : Assembler) : Type 0 where
  pub fixups : Apart 0 (length s.code) s.relocs
  pub inside : All (λ p. p.1 ≤ length s.code) s.labels

pub init-IsValid : IsValid init
init-IsValid = record { fixups = tt; inside = tt }

-- The code, the labels and the fixups have only grown at their ends.
pub record Grows (s s' : Assembler) : Type 0 where
  pub code_grows : (more : List ℕ) × (s'.code ≡ s.code ++ more)
  pub labels_grow : (more : Assoc ℕ) × (s'.labels ≡ s.labels ++ more)
  pub relocs_grow : (more : List Reloc) × (s'.relocs ≡ s.relocs ++ more)

-- A list that has grown twice.
more_trans {ℓ} :
    {A : Type ℓ} (a b c : List A)
    → ((more : List A) × (b ≡ a ++ more))
    → ((more : List A) × (c ≡ b ++ more))
    → (more : List A) × (c ≡ a ++ more)
more_trans a b c (x, p) (y, q) = (x ++ y, q ∙ ap (λ t. t ++ y) p ∙ append_assoc a x y)

pub Grows-refl : (s : Assembler) → Grows s s
Grows-refl s = record {
  code_grows = ([], sym (append-nil s.code));
  labels_grow = ([], sym (append-nil s.labels));
  relocs_grow = ([], sym (append-nil s.relocs));
}

pub Grows-trans : (s t u : Assembler) → Grows s t → Grows t u → Grows s u
Grows-trans s t u g h = record {
  code_grows = more_trans s.code t.code u.code g.code_grows h.code_grows;
  labels_grow = more_trans s.labels t.labels u.labels g.labels_grow h.labels_grow;
  relocs_grow = more_trans s.relocs t.relocs u.relocs g.relocs_grow h.relocs_grow;
}

Apart-grow :
    (from size more : ℕ) (rs : List Reloc) → Apart from size rs → Apart from (size + more) rs
Apart-grow from size more [] h = tt
Apart-grow from size more (r ∷ rs) (a, b, h) =
    (a, omega arith, Apart-grow (r.offset + 4) size more rs h)

inside-grow :
    (size more : ℕ) (ls : Assoc ℕ) → All (λ p. p.1 ≤ size) ls → All (λ p. p.1 ≤ size + more) ls
inside-grow size more [] h = tt
inside-grow size more ((k, v) ∷ ls) (a, h) = (omega arith, inside-grow size more ls h)

-- A new field of four bytes behind everything.
Apart-snoc :
    (from size : ℕ) (rs : List Reloc) (r : Reloc)
    → from ≤ size
    → r.offset ≡ size
    → Apart from size rs
    → Apart from (size + 4) (rs ++ (r ∷ []))
Apart-snoc from size [] r le e h = (omega arith, omega arith, tt)
Apart-snoc from size (q ∷ rs) r le e (a, b, h) =
    (a, omega arith, Apart-snoc (q.offset + 4) size rs r b e h)

pub grown : (s : Assembler) (b : List ℕ) → IsValid s → IsValid (record s { code = s.code ++ b })
grown s b v = record {
  fixups = rw (length-append s.code b) (Apart-grow 0 (length s.code) (length b) s.relocs v.fixups);
  inside = rw (length-append s.code b) (inside-grow (length s.code) (length b) s.labels v.inside);
}

pub with_fixup :
    (s : Assembler) (r : Reloc)
    → r.offset ≡ length s.code
    → IsValid s
    → IsValid (record s { code = s.code ++ zeros; relocs = s.relocs ++ (r ∷ []) })
with_fixup s r e v = record {
  fixups =
      rw (length-append s.code zeros)
        (Apart-snoc 0 (length s.code) s.relocs r (omega arith) e v.fixups);
  inside = rw (length-append s.code zeros) (inside-grow (length s.code) 4 s.labels v.inside);
}

pub with_label :
    (s : Assembler) (name : String)
    → IsValid s
    → IsValid (record s { labels = s.labels ++ ((name, length s.code) ∷ []) })
with_label s name v = record {
  fixups = v.fixups;
  inside =
      All-append (λ p. p.1 ≤ length s.code) s.labels ((name, length s.code) ∷ []) v.inside
        (omega arith, tt);
}

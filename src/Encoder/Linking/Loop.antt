-- ===== src/Encoder/Linking/Loop.antt =====
-- The loop of `link`, and `link` itself.
use aclmv.Prelude.{
  ℕ, ◌+◌, ◌^◌, ◌<◌, ◌≤◌, ◌≡◌, ◌∙◌, refl, ap, List, [], ◌∷◌, arith, Option, some, ◌⊎◌, ◌↔◌, length,
  take, drop, get_elem?, append-nil, All, lookup, Assoc,
}
use aclmv.Prelude.Int.{ℤ, sub_ℕ, wrap, pos_part, neg_part}
use aclmv.X86.{read_disp32}
use aclmv.Encoder.{
  Result, ok, err, le_bytes, Reloc, Assembler, link_reloc, link_loop, link, and_then, offsets,
  linked,
}
use aclmv.Encoder.Memory.Operand.{read_disp32-le_bytes}
use aclmv.Encoder.Linking.{
  Apart, length-patch, get_elem?-patch_outside, take-patch, slice-patch, Resolvable, patched,
  link_reloc-ok, link_reloc-inv,
}

-- The byte position lies in none of the fields.
abbrev pub Outside : ℕ → List Reloc → Type 0
Outside i [] = Unit
Outside i (r ∷ rs) = ((i < r.offset) ⊎ (r.offset + 4 ≤ i)) × Outside i rs

-- The four bytes at the field are a displacement that leads from the end of the field to the target.
abbrev pub LandsOn : List ℕ → Assoc ℕ → Reloc → Type 0
LandsOn code offs r =
    (t : ℕ) × (d : ℤ) × (lookup r.target offs ≡ some t)
    × (read_disp32 (drop r.offset (take (r.offset + 4) code)) ≡ some (d, []))
    × (r.offset + 4 + pos_part d ≡ t + neg_part d)

-- One round of the loop.
link_loop-inv :
    (offs : Assoc ℕ) (r : Reloc) (rs : List Reloc) (code code' : List ℕ)
    → link_loop offs (r ∷ rs) code ≡ ok code'
    → (t : ℕ) × Resolvable offs r t × (link_loop offs rs (patched r t code) ≡ ok code')
unfolding link_loop
link_loop-inv offs r rs code code' h = go (link_reloc offs r code) refl h
  where
    go :
        (o : Result (List ℕ))
        → link_reloc offs r code ≡ o
        → and_then o (λ c. link_loop offs rs c) ≡ ok code'
        → (t : ℕ) × Resolvable offs r t × (link_loop offs rs (patched r t code) ≡ ok code')
    go (err x) e k = cc
    go (ok c) e k = let (t, res, p) = link_reloc-inv offs r code c e in (t, res, rw p at k)

module _ (offs : Assoc ℕ) where
  link_loop-length :
      (rs : List Reloc) (from : ℕ) (code code' : List ℕ)
      → Apart from (length code) rs
      → link_loop offs rs code ≡ ok code'
      → length code' ≡ length code
  unfolding link_loop
  link_loop-length [] from code code' a h = ap length (cc)
  link_loop-length (r ∷ rs) from code code' (a, b, as') h =
      let (t, res, k) = link_loop-inv offs r rs code code' h in
      let n = length-patch code r.offset (wrap (2 ^ 32) (sub_ℕ t (r.offset + 4))) b in
      link_loop-length rs (r.offset + 4) (patched r t code) code' (rw n as') k ∙ n

  link_loop-take :
      (rs : List Reloc) (from n : ℕ) (code code' : List ℕ)
      → n ≤ from
      → Apart from (length code) rs
      → link_loop offs rs code ≡ ok code'
      → take n code' ≡ take n code
  unfolding link_loop
  link_loop-take [] from n code code' le a h = ap (take n) (cc)
  link_loop-take (r ∷ rs) from n code code' le (a, b, as') h =
      let (t, res, k) = link_loop-inv offs r rs code code' h in
      let v = wrap (2 ^ 32) (sub_ℕ t (r.offset + 4)) in
      link_loop-take rs (r.offset + 4) n (patched r t code) code' (omega arith)
        (rw (length-patch code r.offset v b) as') k
      ∙ take-patch code r.offset v b n (omega arith)

  link_loop-Outside :
      (rs : List Reloc) (from i : ℕ) (code code' : List ℕ)
      → Apart from (length code) rs
      → Outside i rs
      → link_loop offs rs code ≡ ok code'
      → get_elem? code' i ≡ get_elem? code i
  unfolding link_loop
  link_loop-Outside [] from i code code' a o h = ap (λ c. get_elem? c i) (cc)
  link_loop-Outside (r ∷ rs) from i code code' (a, b, as') (o, os) h =
      let (t, res, k) = link_loop-inv offs r rs code code' h in
      let v = wrap (2 ^ 32) (sub_ℕ t (r.offset + 4)) in
      link_loop-Outside rs (r.offset + 4) i (patched r t code) code'
        (rw (length-patch code r.offset v b) as') os k
      ∙ get_elem?-patch_outside code r.offset v b i o

  distance : (t n : ℕ) → n + pos_part (sub_ℕ t n) ≡ t + neg_part (sub_ℕ t n)
  distance t n = ground arith

  link_loop-LandsOn :
      (rs : List Reloc) (from : ℕ) (code code' : List ℕ)
      → Apart from (length code) rs
      → link_loop offs rs code ≡ ok code'
      → All (LandsOn code' offs) rs
  link_loop-LandsOn [] from code code' a h = tt
  link_loop-LandsOn (r ∷ rs) from code code' (a, b, as') h =
      let (t, res, k) = link_loop-inv offs r rs code code' h in
      let d : ℤ = sub_ℕ t (r.offset + 4) in
      let v : ℕ = wrap (2 ^ 32) d in
      let apart : Apart (r.offset + 4) (length (patched r t code)) rs =
        rw (length-patch code r.offset v b) as' in
      let same : take (r.offset + 4) code' ≡ take (r.offset + 4) (patched r t code) =
        link_loop-take rs (r.offset + 4) (r.offset + 4) (patched r t code) code' (omega arith) apart
          k in
      let field : read_disp32 (le_bytes 4 v) ≡ some (d, []) =
        rw append-nil at (read_disp32-le_bytes d [] res.1) in
      (
        (
          t,
          d,
          res.0,
          rw same (rw (slice-patch code r.offset v b) field),
          distance t (r.offset + 4),
        ),
        link_loop-LandsOn rs (r.offset + 4) (patched r t code) code' apart k,
      )

  link_loop-ok :
      (rs : List Reloc) (code : List ℕ)
      → All (λ r. (t : ℕ) × Resolvable offs r t) rs
      → (code' : List ℕ) × (link_loop offs rs code ≡ ok code')
  unfolding link_loop
  link_loop-ok [] code h = (code, refl)
  link_loop-ok (r ∷ rs) code ((t, res), h) =
      let (code', e) = link_loop-ok rs (patched r t code) h in
      (code', rw (link_reloc-ok offs r code t res) e)

  link_loop-Resolvable :
      (rs : List Reloc) (code code' : List ℕ)
      → link_loop offs rs code ≡ ok code'
      → All (λ r. (t : ℕ) × Resolvable offs r t) rs
  link_loop-Resolvable [] code code' h = tt
  link_loop-Resolvable (r ∷ rs) code code' h =
      let (t, res, k) = link_loop-inv offs r rs code code' h in
      ((t, res), link_loop-Resolvable rs (patched r t code) code' k)

link-inv :
    (m : Option (Assoc ℕ)) (s s' : Assembler)
    → link m s ≡ ok (tt, s')
    → (code' : List ℕ) × (link_loop (offsets s m) s.relocs s.code ≡ ok code')
      × (s' ≡ record s { code = code' })
unfolding link
link-inv m s s' h = go (link_loop (offsets s m) s.relocs s.code) refl h
  where
    go :
        (o : Result (List ℕ))
        → link_loop (offsets s m) s.relocs s.code ≡ o
        → linked s o ≡ ok (tt, s')
        → (code' : List ℕ) × (link_loop (offsets s m) s.relocs s.code ≡ ok code')
          × (s' ≡ record s { code = code' })
    go (ok c) e k = (c, e, cc)
    go (err x) e k = cc

-- Let the fixups be fields inside the code, in order and apart. When `link` returns, each field holds the
-- signed distance from its end to its target's offset, and the length of the code, the labels and the
-- list of fixups are what they were.
pub link_lem :
    (m : Option (Assoc ℕ)) (s s' : Assembler)
    → Apart 0 (length s.code) s.relocs
    → link m s ≡ ok (tt, s')
    → All (LandsOn s'.code (offsets s m)) s.relocs
      × (length s'.code ≡ length s.code)
      × (s'.labels ≡ s.labels)
      × (s'.relocs ≡ s.relocs)
link_lem m s s' a h =
    let (code', e, p) = link-inv m s s' h in
    rw p (
      link_loop-LandsOn (offsets s m) s.relocs 0 s.code code' a e,
      link_loop-length (offsets s m) s.relocs 0 s.code code' a e,
      refl,
      refl,
    )

-- Let the fixups be fields inside the code, in order and apart. When `link` returns, a byte that lies in
-- none of these fields is what it was.
pub link-Outside :
    (m : Option (Assoc ℕ)) (s s' : Assembler) (i : ℕ)
    → Apart 0 (length s.code) s.relocs
    → Outside i s.relocs
    → link m s ≡ ok (tt, s')
    → get_elem? s'.code i ≡ get_elem? s.code i
link-Outside m s s' i a o h =
    let (code', e, p) = link-inv m s s' h in
    rw p (link_loop-Outside (offsets s m) s.relocs 0 i s.code code' a o e)

-- `link` returns exactly when every fixup's target has an offset and the distance to it fits 32 bits.
pub link_iff :
    (m : Option (Assoc ℕ)) (s : Assembler)
    → ((s' : Assembler) × (link m s ≡ ok (tt, s')))
      ↔ All (λ r. (t : ℕ) × Resolvable (offsets s m) r t) s.relocs
unfolding link
link_iff m s = (
  λ (s', h).
      let (code', e, p) = link-inv m s s' h in
      link_loop-Resolvable (offsets s m) s.relocs s.code code' e,
  λ h.
      let (code', e) = link_loop-ok (offsets s m) s.relocs s.code h in
      (record s { code = code' }, rw e),
)

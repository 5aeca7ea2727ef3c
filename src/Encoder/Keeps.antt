-- ===== src/Encoder/Keeps.antt =====
-- The rules by which methods keep the invariant of the assembler.
use aclmv.Prelude.{
  ℕ, ◌-◌, ◌≡◌, refl, sym, Bool, true, false, String, List, [], ◌∷◌, ◌++◌, arith, length,
  length-append, append-nil, Assoc, lookup, if◌then◌else◌, Option-cases, inl, inr,
}
use aclmv.Encoder.{
  Result, ok, err, Error, Reloc, Assembler, Asm, ◌>>=◌, ◌>>◌, skip, lift, emit, zeros, add_reloc,
  emit_rel32_fixup, label,
}
use aclmv.Encoder.Conditions.{key, found_key}
use aclmv.Encoder.Invariant.{IsValid, Grows, Grows-refl, Grows-trans, grown, with_fixup, with_label}

-- Whenever the method returns, the invariant holds again, and the assembler has grown.
pub record Keeps (m : Asm (Unit {0})) : Type 0 where
  pub at : (s s' : Assembler) → IsValid s → m s ≡ ok (tt, s') → IsValid s' × Grows s s'

pub Keeps-emit : (b : List ℕ) → Keeps (emit b)
unfolding emit
Keeps-emit b = record {
  at = λ s s' v h.
      let e : record s { code = s.code ++ b } ≡ s' = cc in
      rw (← e) (
        grown s b v,
        record {
          code_grows = (b, refl);
          labels_grow = ([], sym (append-nil s.labels));
          relocs_grow = ([], sym (append-nil s.relocs));
        },
      );
}

pub Keeps-skip : Keeps skip
unfolding skip
Keeps-skip = record { at = λ s s' v h. let e : s ≡ s' = cc in rw (← e) (v, Grows-refl s) }

pub Keeps-fixup : (target : String) → Keeps (emit_rel32_fixup target)
unfolding emit_rel32_fixup emit add_reloc ◌>>=◌
Keeps-fixup target = record {
  at = λ s s' v h.
      let r : Reloc = record {
        offset = length (s.code ++ zeros) - 4;
        target = target;
        kind = "rel32";
        size = 4;
      } in
      let e : record s { code = s.code ++ zeros; relocs = s.relocs ++ (r ∷ []) } ≡ s' = cc in
      rw (← e) (
        with_fixup s r (omega (arith, length-append s.code zeros)) v,
        record {
          code_grows = (zeros, refl);
          labels_grow = ([], sym (append-nil s.labels));
          relocs_grow = (r ∷ [], refl);
        },
      );
}

-- The same two steps where a method writes them out.
pub Keeps-zeros : (target : String) → Keeps (emit zeros >> add_reloc target)
unfolding emit_rel32_fixup
Keeps-zeros target = Keeps-fixup target

pub bind-inv :
    {A : Type 0} (m : Asm A) (f : A → Asm (Unit {0})) (s s' : Assembler)
    → (m >>= f) s ≡ ok (tt, s')
    → (a : A) × (t : Assembler) × (m s ≡ ok (a, t)) × (f a t ≡ ok (tt, s'))
unfolding ◌>>=◌
bind-inv {A} m f s s' h = go (m s) refl h
  where
    go :
        (o : Result (A × Assembler))
        → m s ≡ o
        → elim o [ ok (a, t) ↦ f a t | err e ↦ err e ] ≡ ok (tt, s')
        → (a : A) × (t : Assembler) × (m s ≡ ok (a, t)) × (f a t ≡ ok (tt, s'))
    go (ok (a, t)) e k = (a, t, e, k)
    go (err x) e k = cc

pub Keeps-seq : (m n : Asm (Unit {0})) → Keeps m → Keeps n → Keeps (m >> n)
Keeps-seq m n hm hn = record {
  at = λ s s' v h.
      let (_, t, e, k) = bind-inv m (λ _. n) s s' h in
      let (vt, more) = hm.at s t v e in
      let (vs, rest) = hn.at t s' vt k in (vs, Grows-trans s t s' more rest);
}

pub Keeps-lift :
    {A : Type 0} (e : Result A) (f : A → Asm (Unit {0}))
    → ((x : A) → Keeps (f x))
    → Keeps (lift e >>= f)
unfolding ◌>>=◌ lift
Keeps-lift (ok x) f h = record { at = λ s s' v k. (h x).at s s' v k }
Keeps-lift (err e) f h = record { at = λ s s' v k. absurd (cc k) }

pub Keeps-key :
    (table : Assoc ℕ) (cond : String) (f : ℕ → Asm (Unit {0}))
    → ((x : ℕ) → Keeps (f x))
    → Keeps (key table cond >>= f)
unfolding key
Keeps-key table cond f h = Keeps-lift (found_key (lookup cond table)) f h

pub Keeps-if : (c : Bool) (m n : Asm (Unit {0})) → Keeps m → Keeps n → Keeps (if c then m else n)
Keeps-if true m n hm hn = hm
Keeps-if false m n hm hn = hn

pub Keeps-error : (e : Error) → Keeps (lift (err e))
unfolding lift
Keeps-error e = record { at = λ s s' v k. absurd (cc k) }

pub Keeps-label : (name : String) → Keeps (label name)
unfolding label
Keeps-label name = record {
  at = λ s s' v h. elim (Option-cases (lookup name s.labels)) [
    | inl e ↦
        let k = rw e at h in
        let q : record s { labels = s.labels ++ ((name, length s.code) ∷ []) } ≡ s' = cc in
        rw (← q) (
          with_label s name v,
          record {
            code_grows = ([], sym (append-nil s.code));
            labels_grow = ((name, length s.code) ∷ [], refl);
            relocs_grow = ([], sym (append-nil s.relocs));
          },
        )
    | inr (t, e) ↦ let k = rw e at h in absurd (cc)
  ];
}

pub ruleset keeps_rules = (
  Keeps-emit, Keeps-skip, Keeps-fixup, Keeps-zeros, Keeps-seq, Keeps-lift, Keeps-key, Keeps-if,
  Keeps-error,
)

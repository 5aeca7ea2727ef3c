-- ===== src/Encoder/Program/Linked.antt =====
-- What `link` makes of a program that was assembled from the empty assembler.
use aclmv.Prelude.{
  ℕ, ◌≤◌, ◌≡◌, ◌∙◌, refl, String, some, none, inl, inr, List, [], ◌∷◌, ◌++◌, length, All, lookup,
  lookup-before, lookup-behind, Option-cases, arith, eq_iff,
}
use aclmv.Encoder.{ok, Assembler, init, label, pure, link, skip}
use aclmv.Encoder.Emits.{bind_ok}
use aclmv.Encoder.Invariant.{init-IsValid}
use aclmv.Encoder.Keeps.{bind-inv}
use aclmv.Encoder.Linking.Loop.{LandsOn, link_lem}
use aclmv.Encoder.Program.{perform, assemble}
use aclmv.Encoder.Call.{Call}
use aclmv.Encoder.Program.Steps.{Keeps-assemble, Keeps-perform}

-- When the calls of a program return on an empty assembler and `link` then returns, every fixup holds the
-- signed distance from its end to the offset of its label, and every label lies inside the code or at its end.
pub assemble-link :
    (cs : List Call) (s s' : Assembler)
    → assemble cs init ≡ ok (tt, s)
    → link none s ≡ ok (tt, s')
    → All (LandsOn s'.code s.labels) s.relocs × All (λ p. p.1 ≤ length s'.code) s.labels
assemble-link cs s s' h k =
    let (v, g) = (Keeps-assemble cs).at init s init-IsValid h in
    let (lands, size, _, _) = link_lem none s s' v.fixups k in (lands, rw size v.inside)

-- A program in two halves.
assemble-append :
    (cs ds : List Call) (s s' : Assembler)
    → assemble (cs ++ ds) s ≡ ok (tt, s')
    → (t : Assembler) × (assemble cs s ≡ ok (tt, t)) × (assemble ds t ≡ ok (tt, s'))
unfolding assemble skip pure
assemble-append [] ds s s' h = (s, refl, h)
assemble-append (c ∷ cs) ds s s' h =
    let (_, t, e, k) = bind-inv (perform c) (λ _. assemble (cs ++ ds)) s s' h in
    let (u, p, q) = assemble-append cs ds t s' k in
    (u, bind_ok (perform c) (λ _. assemble cs) e ∙ p, q)

lookup-single : (name : String) (n : ℕ) → lookup name ((name, n) ∷ []) ≡ some n
unfolding lookup
lookup-single name n = ground (arith, (eq_iff name name).1 refl)

label-lookup :
    (name : String) (s s' : Assembler)
    → label name s ≡ ok (tt, s')
    → lookup name s'.labels ≡ some (length s.code)
unfolding label
label-lookup name s s' h = elim (Option-cases (lookup name s.labels)) [
  | inl e ↦
      let k = rw e at h in
      let q : record s { labels = s.labels ++ ((name, length s.code) ∷ []) } ≡ s' = cc in
      rw (← q) (lookup-behind name s.labels _ e ∙ lookup-single name (length s.code))
  | inr (t, e) ↦ let k = rw e at h in absurd (cc)
]

-- When the calls of a program return on an empty assembler, a call of `label` in the middle has set its
-- label to the number of bytes that the calls before it have emitted, whatever is called after it.
pub assemble-label :
    (cs ds : List Call) (name : String) (s : Assembler)
    → assemble (cs ++ (Call.label_here name ∷ ds)) init ≡ ok (tt, s)
    → (t : Assembler) × (assemble cs init ≡ ok (tt, t))
      × (lookup name s.labels ≡ some (length t.code))
      × ((more : List ℕ) × (s.code ≡ t.code ++ more))
unfolding assemble perform
assemble-label cs ds name s h =
    let (t, e, k) = assemble-append cs (Call.label_here name ∷ ds) init s h in
    let (v, g) = (Keeps-assemble cs).at init t init-IsValid e in
    let (_, u, l, m) = bind-inv (label name) (λ _. assemble ds) t s k in
    let (w, _) = (Keeps-perform (Call.label_here name)).at t u v l in
    let (_, grows) = (Keeps-assemble ds).at u s w m in
    let (more, p) = grows.labels_grow in
    let (_, whole) = (Keeps-assemble (Call.label_here name ∷ ds)).at t s v k in
    (t, e, rw p (lookup-before name u.labels more (label-lookup name t u l)), whole.code_grows)

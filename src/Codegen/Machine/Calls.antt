-- ===== src/Codegen/Machine/Calls.antt =====
-- Runs of the calls, and the predicate that they put a value into a register.
use aclmv.Prelude.{
  ℕ, ◌≡◌, ◌≢◌, ◌∙◌, refl, sym, ap, append-nil, String, str_eq, eq_iff, false, Bool-cases, none,
  some, Option-cases, inl, inr, List, [], ◌∷◌, ◌++◌,
}
use aclmv.Prelude.Int.{ℤ}
use aclmv.Encoder.{Assembler, Result, ok, err, skip as no_calls, pure as return}
use aclmv.Encoder.Call
use aclmv.Encoder.Emits.{bind_ok}
use aclmv.Encoder.Program.{perform, assemble}
use aclmv.Codegen.{Generator, done, pure, skip, asm, performed, move_unless}
use aclmv.Codegen.Traced.{asm-call}
use aclmv.Codegen.Machine.{Machine, put, exec, run}

pub differs : (a b : String) → a ≢ b → str_eq a b ≡ false
differs a b h = elim (Bool-cases (str_eq a b)) [ inl e ↦ absurd (h ((eq_iff a b).0 e)) | inr e ↦ e ]

pub put-same : (r : String) (v : ℕ) (m : Machine) → (put r v m).regs r ≡ v
put-same r v m = rw ((eq_iff r r).1 refl) refl

pub put-other : (r x : String) (v : ℕ) (m : Machine) → x ≢ r → (put r v m).regs x ≡ m.regs x
put-other r x v m h = rw (differs x r h) refl

-- The state apart from the assembler and the history of its calls.
abbrev pub Only : Generator → Generator → Type 0
Only g g' = g' ≡ record g { asm' = g'.asm'; called = g'.called }

pub asm-Only : (c : Call.Call) (g g' : Generator) (a : Unit {0}) → asm c g ≡ done a g' → Only g g'
unfolding asm
asm-Only c g g' a h = go (perform c g.asm') h
  where
    go :
        (o : Result (Unit {0} × Assembler))
        → performed (record g { called = g.called ++ (c ∷ []) }) o ≡ done a g'
        → Only g g'
    go (ok (tt, t)) p =
        let e : record g { asm' = t; called = g.called ++ (c ∷ []) } ≡ g' = cc in rw (← e) refl
    go (err x) p = cc

pub assemble-one :
    (c : Call.Call) (g g' : Generator) (a : Unit {0})
    → asm c g ≡ done a g'
    → assemble (c ∷ []) g.asm' ≡ ok (tt, g'.asm')
unfolding assemble no_calls return
assemble-one c g g' a h = bind_ok (perform c) (λ _. no_calls) (asm-call c g g' a h).0

module _ (frame : ℤ → ℕ) (address : String → ℕ) where
  pub run-append :
      (cs ds : List Call.Call) (m m' : Machine)
      → run frame address cs m ≡ some m'
      → run frame address (cs ++ ds) m ≡ run frame address ds m'
  unfolding run
  run-append [] ds m m' h = let e : m ≡ m' = cc in rw e refl
  run-append (c ∷ cs) ds m m' h = elim (Option-cases (exec frame address c m)) [
    | inl e ↦ let p : none ≡ some m' = rw e at h in absurd (cc)
    | inr (t, e) ↦ rw e (run-append cs ds t m' (rw e at h))
  ]

  -- The calls that were made between two states of the generator put a value into a register, leave the stack as it is, and
  -- change no other register but r11 and r12.
  pub record Lands (g g' : Generator) (dst : String) (f : Machine → ℕ) : Type 0 where
    pub calls : List Call.Call
    pub made : g'.called ≡ g.called ++ calls
    pub assembled : assemble calls g.asm' ≡ ok (tt, g'.asm')
    pub only : Only g g'
    pub at :
        (m : Machine)
        → (m' : Machine) × (run frame address calls m ≡ some m')
          × (m'.stack ≡ m.stack)
          × (m'.regs dst ≡ f m)
          × ((r : String) → r ≢ dst → r ≢ "r11" → r ≢ "r12" → m'.regs r ≡ m.regs r)

  pub Lands-one :
      (c : Call.Call) (g g' : Generator) (a : Unit {0}) (dst : String) (f : Machine → ℕ)
      → ((m : Machine) → exec frame address c m ≡ some (put dst (f m) m))
      → asm c g ≡ done a g'
      → Lands g g' dst f
  unfolding run
  Lands-one c g g' a dst f step h = record {
    calls = c ∷ [];
    made = (asm-call c g g' a h).1;
    assembled = assemble-one c g g' a h;
    only = asm-Only c g g' a h;
    at = λ m. (
      put dst (f m) m,
      rw (step m) refl,
      refl,
      put-same dst (f m) m,
      λ r p q s. put-other dst r (f m) m p,
    );
  }

  pub Lands-move :
      (dst src : String) (g g' : Generator) (a : Unit {0})
      → move_unless dst src g ≡ done a g'
      → Lands g g' dst (λ m. m.regs src)
  unfolding skip pure exec assemble no_calls return run
  Lands-move dst src g g' a h = elim (Bool-cases (str_eq dst src)) [
    | inl e ↦
        let same : g ≡ g' = let k = rw e at h in cc in
        let d : dst ≡ src = (eq_iff dst src).0 e in
        rw (← same) record {
          calls = [];
          made = sym (append-nil g.called);
          assembled = refl;
          only = refl;
          at = λ m. (m, refl, refl, ap m.regs d, λ r p q s. refl);
        }
    | inr e ↦
        Lands-one (Call.mov_reg_reg dst src) g g' a dst (λ m. m.regs src) (λ m. refl) (rw e at h)
  ]

  -- The same value in other words.
  pub Lands-value :
      {g g' : Generator} {dst : String} {f f' : Machine → ℕ}
      → ((m : Machine) → f m ≡ f' m)
      → Lands g g' dst f
      → Lands g g' dst f'
  Lands-value e l = record {
    calls = l.calls;
    made = l.made;
    assembled = l.assembled;
    only = l.only;
    at = λ m. let (m', p, q, v, o) = l.at m in (m', p, q, v ∙ e m, o);
  }

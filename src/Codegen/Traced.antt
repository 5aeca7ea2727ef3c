-- ===== src/Codegen/Traced.antt =====
-- What a handler does to the assembler, as a sequence of calls of the encoder, and how its pushes and pops balance.
pub mod Eval
pub mod Memory
pub mod Arith
pub mod Locks
pub mod Blocks
pub mod Wire
pub mod Cells
pub mod Net
pub mod Threads
pub mod Functions
pub mod Signals
pub mod Basic
pub mod Operands
pub mod Isa
pub mod Emit
pub mod Kernel
use aclmv.Prelude.{
  ℕ, zero, suc, ◌≡◌, ◌∙◌, refl, sym, Bool, true, false, String, Option, none, some, List, [], ◌∷◌,
  ◌++◌, if◌then◌else◌, length, has, insert, ap, append_assoc, append-nil, Option-cases, Bool-cases,
  inl, inr, str_eq, lookup, All, Assoc,
}
use aclmv.Ast.Expr.{Expr}
use aclmv.Regs.{Resolution, register, reserved_register, unknown_register, resolve}
use aclmv.Prelude.Text.{codes}
use aclmv.Encoder.{Assembler, Result, ok, err, skip as no_calls, pure as return}
use aclmv.Encoder.Call
use aclmv.Encoder.Emits.{bind_ok}
use aclmv.Encoder.Keeps.{bind-inv}
use aclmv.Encoder.Program.{perform, assemble}
use aclmv.Codegen.{
  Generator, Gen, Outcome, done, fault, Fault, ◌>>=◌, ◌>>◌, pure, skip, raise, get, set, asm,
  performed, resolved, resolve_name, for_each, on_option, new_label, reserve, once, has_data,
  push_all, pop_all, label_name,
}

-- The depth of the stack behind a call, in words from where the handler found it; a pop below that has none.
-- `leave` and `enter` replace the stack pointer, so no depth is known behind them. A change of rsp by another
-- instruction is not counted.
abbrev pub depth_after : Call.Call → ℕ → Option ℕ
depth_after (Call.push_reg _) d = some (suc d)
depth_after (Call.pop_reg _) zero = none
depth_after (Call.pop_reg _) (suc d) = some d
depth_after Call.pushfq d = some (suc d)
depth_after Call.popfq zero = none
depth_after Call.popfq (suc d) = some d
depth_after Call.leave d = none
depth_after (Call.enter_imm _ _) d = none
depth_after _ d = some d

abbrev pub then_depth : Option ℕ → (ℕ → Option ℕ) → Option ℕ
then_depth none f = none
then_depth (some d) f = f d

unfoldable pub depth : List Call.Call → ℕ → Option ℕ
depth [] d = some d
depth (c ∷ cs) d = then_depth (depth_after c d) (depth cs)

-- Whenever the method returns, the calls that it has made lead from one depth of the stack to the other; and they
-- are what has happened to the assembler.
pub record Traced {A : Type 0} (d : ℕ) (m : Gen A) (e : ℕ) : Type 0 where
  pub at :
      (g g' : Generator) (a : A)
      → m g ≡ done a g'
      → (cs : List Call.Call) × (g'.called ≡ g.called ++ cs)
        × (assemble cs g.asm' ≡ ok (tt, g'.asm'))
        × (depth cs d ≡ some e)

pub assemble-append :
    (cs ds : List Call.Call) (s t u : Assembler)
    → assemble cs s ≡ ok (tt, t)
    → assemble ds t ≡ ok (tt, u)
    → assemble (cs ++ ds) s ≡ ok (tt, u)
unfolding assemble no_calls return
assemble-append [] ds s t u h k = let e : s ≡ t = cc in rw e k
assemble-append (c ∷ cs) ds s t u h k =
    let (_, v, p, q) = bind-inv (perform c) (λ _. assemble cs) s t h in
    bind_ok (perform c) (λ _. assemble (cs ++ ds)) p ∙ assemble-append cs ds v t u q k

depth-append :
    (cs ds : List Call.Call) (d e : ℕ) (f : Option ℕ)
    → depth cs d ≡ some e
    → depth ds e ≡ f
    → depth (cs ++ ds) d ≡ f
unfolding depth
depth-append [] ds d e f h k = let q : d ≡ e = cc in rw q k
depth-append (c ∷ cs) ds d e f h k = elim (Option-cases (depth_after c d)) [
  | inl q ↦ let p : none ≡ some e = rw q at h in absurd (cc)
  | inr (x, q) ↦ rw q (depth-append cs ds x e f (rw q at h) k)
]

pub run-inv :
    {A B : Type 0} (m : Gen A) (f : A → Gen B) (g g' : Generator) (b : B)
    → (m >>= f) g ≡ done b g'
    → (a : A) × (h : Generator) × (m g ≡ done a h) × (f a h ≡ done b g')
unfolding ◌>>=◌
run-inv {A} {B} m f g g' b h = go (m g) refl h
  where
    go :
        (o : Outcome A)
        → m g ≡ o
        → elim o [ done a t ↦ f a t | fault e ↦ fault e ] ≡ done b g'
        → (a : A) × (t : Generator) × (m g ≡ done a t) × (f a t ≡ done b g')
    go (done a t) e k = (a, t, e, k)
    go (fault x) e k = cc

-- A method that leaves the assembler as it is.
pub Traced-still :
    {A : Type 0} {d : ℕ} {m : Gen A}
    → ((g g' : Generator) (a : A) → m g ≡ done a g' → (g.asm' ≡ g'.asm') × (g.called ≡ g'.called))
    → Traced d m d
unfolding assemble no_calls return depth
Traced-still h = record {
  at = λ g g' a k.
      let (p, q) = h g g' a k in
      ([], sym q ∙ sym (append-nil g.called), ap (λ s. ok (tt, s)) p, refl);
}

still : {g g' : Generator} → g ≡ g' → (g.asm' ≡ g'.asm') × (g.called ≡ g'.called)
still e = (ap (λ x. x.asm') e, ap (λ x. x.called) e)

pub history-append :
    (a cs ds : List Call.Call) {b c : List Call.Call}
    → b ≡ a ++ cs
    → c ≡ b ++ ds
    → c ≡ a ++ (cs ++ ds)
history-append a cs ds p q = q ∙ ap (λ x. x ++ ds) p ∙ append_assoc a cs ds

pub Traced-bind :
    {A B : Type 0} {d e f : ℕ} {m : Gen A} {k : A → Gen B}
    → Traced d m e
    → ((a : A) → Traced e (k a) f)
    → Traced d (m >>= k) f
Traced-bind {d = d} {e} {f} {m} {k} hm hk = record {
  at = λ g g' b h.
      let (a, t, p, q) = run-inv m k g g' b h in
      let (cs, u, x, y) = hm.at g t a p in
      let (ds, v, z, w) = (hk a).at t g' b q in
      (
        cs ++ ds,
        history-append g.called cs ds u v,
        assemble-append cs ds g.asm' t.asm' g'.asm' x z,
        depth-append cs ds d e (some f) y w,
      );
}

asm-inv :
    (c : Call.Call) (g h g' : Generator) (o : Result (Unit {0} × Assembler)) (a : Unit {0})
    → perform c g.asm' ≡ o
    → performed h o ≡ done a g'
    → (perform c g.asm' ≡ ok (tt, g'.asm')) × (g'.called ≡ h.called)
asm-inv c g h g' (ok (tt, t)) a p k = let e : record h { asm' = t } ≡ g' = cc in rw (← e) (p, refl)
asm-inv c g h g' (err x) a p k = absurd (cc)

pub asm-call :
    (c : Call.Call) (g g' : Generator) (a : Unit {0})
    → asm c g ≡ done a g'
    → (perform c g.asm' ≡ ok (tt, g'.asm')) × (g'.called ≡ g.called ++ (c ∷ []))
unfolding asm
asm-call c g g' a h =
    asm-inv c g (record g { called = g.called ++ (c ∷ []) }) g' (perform c g.asm') a refl h

pub Traced-asm : {d e : ℕ} (c : Call.Call) → depth_after c d ≡ some e → Traced d (asm c) e
unfolding assemble no_calls return depth
Traced-asm {d} {e} c h = record {
  at = λ g g' a k.
      let (p, q) = asm-call c g g' a k in
      (c ∷ [], q, bind_ok (perform c) (λ _. no_calls) p, rw h refl);
}

module _ {d : ℕ} where
  pub Traced-pure : {A : Type 0} (a : A) → Traced d (pure a) d
  unfolding pure
  Traced-pure a = Traced-still λ g g' b h. still (let e : g ≡ g' = cc in e)

  pub Traced-skip : Traced d skip d
  unfolding skip
  Traced-skip = Traced-pure tt

  pub Traced-raise : {A : Type 0} {e : ℕ} (x : Fault) → Traced {A = A} d (raise x) e
  unfolding raise
  Traced-raise x = record { at = λ g g' b h. absurd (cc) }

  pub Traced-get : Traced d get d
  unfolding get
  Traced-get = Traced-still λ g g' b h. still (let e : g ≡ g' = cc in e)

  pub Traced-set :
      (f : Generator → Generator)
      → ((g : Generator) → ((f g).asm' ≡ g.asm') × ((f g).called ≡ g.called))
      → Traced d (set f) d
  unfolding set
  Traced-set f same = Traced-still λ g g' b h.
      let e : f g ≡ g' = cc in
      (sym (same g).0 ∙ ap (λ x. x.asm') e, sym (same g).1 ∙ ap (λ x. x.called) e)

  pub Traced-has_data : (name : String) → Traced d (has_data name) d
  unfolding has_data
  Traced-has_data name = Traced-still λ g g' b h. still (let e : g ≡ g' = cc in e)

  pub Traced-new_label : (prefix : String) → Traced d (new_label prefix) d
  unfolding new_label
  Traced-new_label prefix = Traced-still λ g g' b h.
      let e : record g { label_i = suc g.label_i } ≡ g' = cc in
      (ap (λ x. x.asm') e, ap (λ x. x.called) e)

  pub Traced-resolved : (name : String) (r : Resolution) → Traced d (resolved name r) d
  Traced-resolved name (register p) = Traced-pure p
  Traced-resolved name reserved_register = Traced-raise _
  Traced-resolved name unknown_register = Traced-raise _

  pub Traced-resolve_name : (name : String) → Traced d (resolve_name name) d
  unfolding resolve_name
  Traced-resolve_name name = Traced-resolved name (resolve (codes name))

  pub Traced-reserve : (name : String) (bytes : List ℕ) → Traced d (reserve name bytes) d
  unfolding reserve
  Traced-reserve name bytes = Traced-set _ λ g. same (has name g.data_layout) g
    where
      same :
          (b : Bool) (g : Generator)
          → let h = if b then g else record g {
            data_layout = insert name (length g.data_bytes) g.data_layout;
            data_bytes = g.data_bytes ++ bytes;
          } in
            (h.asm' ≡ g.asm') × (h.called ≡ g.called)
      same true g = (refl, refl)
      same false g = (refl, refl)

  pub Traced-if :
      {A : Type 0} {e : ℕ} (c : Bool) {m n : Gen A}
      → Traced d m e
      → Traced d n e
      → Traced d (if c then m else n) e
  Traced-if true hm hn = hm
  Traced-if false hm hn = hn

  pub Traced-option :
      {A B : Type 0} {e : ℕ} (o : Option A) {m : A → Gen B} {n : Gen B}
      → ((a : A) → Traced d (m a) e)
      → Traced d n e
      → Traced d (on_option o m n) e
  unfolding on_option
  Traced-option (some a) hm hn = hm a
  Traced-option none hm hn = hn

  pub Traced-once :
      (name : String) {body : Gen (Unit {0})} → Traced d body d → Traced d (once name body) d
  unfolding once
  Traced-once name h =
      Traced-bind Traced-get
        λ g. Traced-if _ (Traced-bind h λ _. Traced-set _ λ x. (refl, refl)) Traced-skip

  pub Traced-for_each :
      {A : Type 0} (xs : List A) {f : A → Gen (Unit {0})}
      → ((x : A) → Traced d (f x) d)
      → Traced d (for_each xs f) d
  unfolding for_each
  Traced-for_each [] h = Traced-skip
  Traced-for_each (x ∷ xs) h = Traced-bind (h x) λ _. Traced-for_each xs h

-- A split on an entry of a table: every entry, and the way without one.
pub Traced-lookup :
    {V B : Type 0} {d e : ℕ} (m : V → Gen B) (key : String) (t : Assoc V) {n : Gen B}
    → All (λ p. Traced d (m p.1) e) t
    → Traced d n e
    → Traced d (on_option (lookup key t) m n) e
unfolding lookup on_option
Traced-lookup m key [] hs h = h
Traced-lookup m key ((name, v) ∷ t) (hv, hs) h = elim (Bool-cases (str_eq name key)) [
  | inl q ↦ rw q hv
  | inr q ↦ rw q (Traced-lookup m key t hs h)
]

-- The rules for a sequence, by its first step: the depth behind it is computed, not searched for.
module _ {A B : Type 0} {d f : ℕ} where
  pub Traced-step :
      {m : Gen A} {k : A → Gen B}
      → Traced d m d
      → ((a : A) → Traced d (k a) f)
      → Traced d (m >>= k) f
  Traced-step hm hk = Traced-bind hm hk

-- The depth behind a push of every register of a list.
abbrev pub pushed : List String → ℕ → ℕ
pushed [] d = d
pushed (r ∷ rs) d = pushed rs (suc d)

pub Traced-push_all : {d : ℕ} (rs : List String) → Traced d (push_all rs) (pushed rs d)
unfolding push_all for_each
Traced-push_all [] = Traced-skip
Traced-push_all (r ∷ rs) = Traced-bind (Traced-asm (Call.push_reg r) refl) λ _. Traced-push_all rs

module _ {B : Type 0} {d f : ℕ} where
  pub Traced-push :
      (k : Unit {0} → Gen B) (r : String)
      → Traced (suc d) (k tt) f
      → Traced d (asm (Call.push_reg r) >>= k) f
  Traced-push k r hk = Traced-bind (Traced-asm (Call.push_reg r) refl) λ _. hk

  pub Traced-pop :
      (k : Unit {0} → Gen B) (r : String)
      → Traced d (k tt) f
      → Traced (suc d) (asm (Call.pop_reg r) >>= k) f
  Traced-pop k r hk = Traced-bind (Traced-asm (Call.pop_reg r) refl) λ _. hk

  pub Traced-pushes :
      (k : Unit {0} → Gen B) (rs : List String)
      → Traced (pushed rs d) (k tt) f
      → Traced d (push_all rs >>= k) f
  Traced-pushes k rs hk = Traced-bind (Traced-push_all rs) λ _. hk

pub ruleset traced_rules = (
  Traced-step, Traced-push, Traced-pop, Traced-pushes, Traced-asm, Traced-pure, Traced-skip,
  Traced-raise, Traced-get, Traced-has_data, Traced-new_label, Traced-resolve_name, Traced-reserve,
  Traced-if, Traced-option, Traced-once, refl,
)

-- ===== src/Encoder/Emits.antt =====
-- Methods that only append bytes to the code, and the rules that compute these bytes.
use aclmv.Prelude.{
  ℕ, ◌≡◌, ◌∙◌, refl, sym, ap, Bool, true, false, List, [], ◌++◌, append_assoc, append-nil,
  if◌then◌else◌,
}
use aclmv.Encoder.{Result, ok, Assembler, Asm, ◌>>=◌, ◌>>◌, skip, lift, emit}

abbrev pub emitted : Assembler → List ℕ → Assembler
emitted s bytes = record s { code = s.code ++ bytes }

-- `m` returns normally, appends `bytes` to the code and changes nothing else.
pub record Emits (m : Asm (Unit {0})) (bytes : List ℕ) : Type 0 where
  pub at : (s : Assembler) → m s ≡ ok (tt, emitted s bytes)

pub Emits-emit : (bytes : List ℕ) → Emits (emit bytes) bytes
unfolding emit
Emits-emit bytes = record { at = λ s. refl }

pub Emits-skip : Emits skip []
unfolding skip
Emits-skip = record { at = λ s. ap (λ c. ok (tt, record s { code = c })) (sym (append-nil s.code)) }

pub bind_ok :
    {A B : Type 0} (m : Asm A) (f : A → Asm B) {s t : Assembler} {a : A}
    → m s ≡ ok (a, t)
    → (m >>= f) s ≡ f a t
unfolding ◌>>=◌
bind_ok m f h = rw (h, ◌>>=◌)

pub Emits-seq :
    {m n : Asm (Unit {0})} {a b : List ℕ} → Emits m a → Emits n b → Emits (m >> n) (a ++ b)
Emits-seq {m} {n} {a} {b} hm hn = record {
  at = λ s.
      bind_ok m _ (hm.at s)
      ∙ hn.at (emitted s a)
      ∙ ap (λ c. ok (tt, record s { code = c })) (append_assoc s.code a b);
}

lift_ok : {A : Type 0} {e : Result A} {x : A} → e ≡ ok x → (s : Assembler) → lift e s ≡ ok (x, s)
unfolding lift
lift_ok h s = rw (h, lift)

pub Emits-lift :
    {A : Type 0} {e : Result A} {x : A} (f : A → Asm (Unit {0})) {a : List ℕ}
    → e ≡ ok x
    → Emits (f x) a
    → Emits (lift e >>= f) a
Emits-lift {e = e} {x} f h k = record { at = λ s. bind_ok (lift e) f (lift_ok h s) ∙ k.at s }

pub Emits-if :
    (c : Bool) {m n : Asm (Unit {0})} {a b : List ℕ}
    → Emits m a
    → Emits n b
    → Emits (if c then m else n) (if c then a else b)
Emits-if true h k = h
Emits-if false h k = k

-- The same under a test with another spelling.
pub Emits-if_eq :
    {c : Bool} (d : Bool) {m n : Asm (Unit {0})} {a b : List ℕ}
    → c ≡ d
    → Emits m a
    → Emits n b
    → Emits (if c then m else n) (if d then a else b)
Emits-if_eq d e h k = rw e (Emits-if d h k)

pub ruleset emits_rules = (Emits-emit, Emits-skip, Emits-seq, Emits-if)

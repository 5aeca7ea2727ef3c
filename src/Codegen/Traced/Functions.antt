-- ===== src/Codegen/Traced/Functions.antt =====
-- The handlers of codegen.py push and pop in balance: Functions.
use aclmv.Prelude.{
  ℕ, suc, ◌+◌, ◌≤◌, ◌≡◌, refl, arith, length, take, reverse, length-take, length-reverse, [], ◌∷◌,
  String, List,
}
use aclmv.Ast.Expr.{Expr, SysNum}
use aclmv.Ast.Program
use aclmv.Encoder.Call
use aclmv.Codegen.{for_each, pop_all}
use aclmv.Codegen.Functions
use aclmv.Codegen.Traced.{
  Traced, Traced-step, Traced-pop, Traced-bind, Traced-get, Traced-asm, Traced-skip, traced_rules,
}
use aclmv.Codegen.Traced.Eval.{Traced-eval}

pub Traced-syscall_number : {d : ℕ} (s : SysNum) → Traced d (Functions.syscall_number s) d
unfolding Functions.syscall_number
Traced-syscall_number (SysNum.literal v) = search traced_rules
Traced-syscall_number (SysNum.named name) = search traced_rules depth 20

Traced-pop_all : {d : ℕ} (rs : List String) → Traced (length rs + d) (pop_all rs) d
unfolding pop_all for_each
Traced-pop_all {d = d} [] = let e : 0 + d ≡ d = omega arith in rw e Traced-skip
Traced-pop_all {d = d} (r ∷ rs) =
    let e : suc (length rs) + d ≡ suc (length rs + d) = omega arith in
    rw e (Traced-pop _ r (Traced-pop_all rs))

Traced-push_args :
    {d : ℕ} (tmp : String) (args : List Expr)
    → Traced d (Functions.push_args tmp args) (length args + d)
unfolding Functions.push_args for_each
Traced-push_args {d = d} tmp [] = let e : 0 + d ≡ d = omega arith in rw e Traced-skip
Traced-push_args {d = d} tmp (a ∷ args) =
    let e : suc (length args) + d ≡ length args + suc d = omega arith in
    rw e (
      Traced-bind (Traced-step (Traced-eval a tmp) λ _. Traced-asm (Call.push_reg tmp) refl)
        λ _. Traced-push_args tmp args)

Traced-pops : {d n : ℕ} (rs : List String) → length rs ≡ n → Traced (n + d) (pop_all rs) d
Traced-pops rs h = rw (← h) (Traced-pop_all rs)

length-reverse-take : (n : ℕ) (rs : List String) → n ≤ length rs → length (reverse (take n rs)) ≡ n
length-reverse-take n rs h = omega (arith, length-reverse (take n rs), length-take n rs)

-- As many registers are popped as operands were pushed, since at most six operands are taken and there are
-- six registers.
Traced-pass_args :
    {d : ℕ} (tmp : String) (regs : List String) (args : List Expr)
    → length regs ≡ 6
    → Traced d (Functions.pass_args tmp regs args) d
unfolding Functions.pass_args
Traced-pass_args {d = d} tmp regs args h =
    let n : length (reverse (take (length (take 6 args)) regs)) ≡ length (take 6 args) =
      length-reverse-take (length (take 6 args)) regs (omega (arith, length-take 6 args)) in
    Traced-bind (Traced-push_args tmp (take 6 args))
      λ _. Traced-pops (reverse (take (length (take 6 args)) regs)) n

pub Traced-syscall : {d : ℕ} (s : Program.SysCall) → Traced d (Functions.syscall s) d
unfolding Functions.syscall
Traced-syscall s = Traced-step Traced-get λ g. Traced-step (search traced_rules) λ _.
    Traced-step (Traced-syscall_number s.num)
      λ num. Traced-step (Traced-pass_args "r15" _ s.args refl) λ _. search traced_rules depth 20

pub Traced-call : {d : ℕ} (s : Program.Call) → Traced d (Functions.call s) d
unfolding Functions.call
Traced-call s = Traced-step (Traced-pass_args "r11" _ s.args refl) λ _. search traced_rules

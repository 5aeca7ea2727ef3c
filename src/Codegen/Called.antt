-- ===== src/Codegen/Called.antt =====
-- Every statement, a whole program too, acts on the assembler by calls of the encoder's methods only.
use aclmv.Prelude.{
  ℕ, ◌≡◌, refl, Bool, true, false, List, [], ◌∷◌, ◌++◌, Option, ◌==◌, ◌||◌, if◌then◌else◌, length,
  String,
}
use aclmv.Ast.Stmt.{Stmt, Node, at, Nodes, nil, cons}
use aclmv.Ast.Program
use aclmv.Ast.Kernel
use aclmv.Prelude.{Assoc, lookup}
use aclmv.Ast.Expr.{Expr}
use aclmv.Encoder.{ok, skip as no_calls, pure as return}
use aclmv.Encoder.Emits.{bind_ok}
use aclmv.Codegen.Eval.{eval, eval_or}
use aclmv.Encoder.Call
use aclmv.Encoder.Program.{perform, assemble}
use aclmv.Codegen.{
  Gen, Generator, done, ◌>>=◌, asm, set, get, skip, resolve_name, for_each, push_all, pop_all,
}
use aclmv.Codegen.Emit.{emit_stmt, record_line, emit, emit_all}
use aclmv.Codegen.Isa as Instructions
use aclmv.Codegen.Isa.{emit_isa}
use aclmv.Codegen.Functions
use aclmv.Codegen.Basic
use aclmv.Codegen.Kernel.Syscalls
use aclmv.Codegen.Traced.{
  Traced, assemble-append, run-inv, Traced-set, Traced-get, Traced-skip, Traced-resolve_name,
  Traced-option, Traced-pure, Traced-raise, asm-call,
}
use aclmv.Codegen.Traced.Eval.{Traced-eval, Traced-eval_or}
use aclmv.Codegen.Traced.Emit.{Traced-emit_stmt}

pub record Called {A : Type 0} (m : Gen A) : Type 0 where
  pub at :
      (g g' : Generator) (a : A)
      → m g ≡ done a g'
      → (cs : List Call.Call) × (assemble cs g.asm' ≡ ok (tt, g'.asm'))

pub Called-Traced : {A : Type 0} {d e : ℕ} {m : Gen A} → Traced d m e → Called m
Called-Traced h = record { at = λ g g' a k. let (cs, _, p, _) = h.at g g' a k in (cs, p) }

pub Called-bind :
    {A B : Type 0} {m : Gen A} {k : A → Gen B}
    → Called m
    → ((a : A) → Called (k a))
    → Called (m >>= k)
Called-bind {m = m} {k} hm hk = record {
  at = λ g g' b h.
      let (a, t, p, q) = run-inv m k g g' b h in
      let (cs, x) = hm.at g t a p in
      let (ds, y) = (hk a).at t g' b q in
      (cs ++ ds, assemble-append cs ds g.asm' t.asm' g'.asm' x y);
}

pub Called-asm : (c : Call.Call) → Called (asm c)
unfolding assemble no_calls return
Called-asm c = record {
  at = λ g g' a k. (c ∷ [], bind_ok (perform c) (λ _. no_calls) (asm-call c g g' a k).0);
}

pub Called-if :
    {A : Type 0} (b : Bool) (m n : Gen A) → Called m → Called n → Called (if b then m else n)
Called-if true m n h k = h
Called-if false m n h k = k

pub Called-for_each :
    {A : Type 0} (xs : List A) (f : A → Gen (Unit {0}))
    → ((x : A) → Called (f x))
    → Called (for_each xs f)
unfolding for_each
Called-for_each [] f h = Called-Traced {d = 0} Traced-skip
Called-for_each (x ∷ xs) f h = Called-bind (h x) λ _. Called-for_each xs f h

pub Called-eval : (e : Expr) (dst : String) → Called (eval e dst)
Called-eval e dst = Called-Traced {d = 0} (Traced-eval e dst)

pub Called-resolve_name : (name : String) → Called (resolve_name name)
Called-resolve_name name = Called-Traced {d = 0} (Traced-resolve_name name)

pub Called-get : Called get
Called-get = Called-Traced {d = 0} Traced-get

pub Called-set :
    (f : Generator → Generator)
    → ((g : Generator) → ((f g).asm' ≡ g.asm') × ((f g).called ≡ g.called))
    → Called (set f)
Called-set f h = Called-Traced {d = 0} (Traced-set f h)

pub Called-skip : Called skip
Called-skip = Called-Traced {d = 0} Traced-skip

pub ruleset called_rules = (
  Called-bind, Called-asm, Called-if, Called-for_each, Called-eval, Called-resolve_name, Called-get,
  Called-skip,
)

Called-fn_epilogue : Called Functions.fn_epilogue
unfolding Functions.fn_epilogue pop_all
Called-fn_epilogue = search called_rules depth 20

Called-emit_ret : Called Functions.emit_ret
unfolding Functions.emit_ret
Called-emit_ret = search (called_rules, Called-fn_epilogue) depth 20

Called-eval_or : (o : Option Expr) → Called (eval_or o "rax" skip)
Called-eval_or o = Called-Traced {d = 0} (Traced-eval_or o "rax" Traced-skip)

Called-ret_val : (s : Program.RetVal) → Called (Functions.ret_val s)
unfolding Functions.ret_val
Called-ret_val s = search (called_rules, Called-eval_or, Called-emit_ret) depth 20

Called-stack_push : (s : Program.StackPush) → Called (Basic.stack_push s)
unfolding Basic.stack_push
Called-stack_push s = search called_rules depth 20

Called-enter_user : (s : Kernel.KernelEnterUser) → Called (Syscalls.kernel_enter_user s)
unfolding Syscalls.kernel_enter_user
Called-enter_user s = search called_rules depth 40

-- A method that is found by its name, whichever it is.
Called-method : (t : Assoc Call.Call) (name : String) → Called (Instructions.by_name t name)
unfolding Instructions.method
Called-method t name =
    Called-bind
      (Called-Traced {d = 0} (Traced-option (lookup name t) (λ a. Traced-pure a) (Traced-raise _)))
      λ c. Called-asm c

pub Called-emit_stmt : (s : Stmt) → Called (emit_stmt s)
unfolding emit_stmt Instructions.emit_isa
Called-emit_stmt (Stmt.stack_push s) = Called-stack_push s
Called-emit_stmt (Stmt.stack_pop s) = search called_rules
Called-emit_stmt Stmt.ret = Called-emit_ret
Called-emit_stmt (Stmt.ret_val s) = Called-ret_val s
Called-emit_stmt (Stmt.kernel_enter_user s) = Called-enter_user s
Called-emit_stmt (Stmt.fn_def n a b l) = Called-Traced {d = 0} {e = 0} (Traced-raise _)
Called-emit_stmt (Stmt.cpu_flag_op s) = Called-method _ s.op
Called-emit_stmt (Stmt.cpu_enter s) = Called-asm _
Called-emit_stmt s = Called-Traced {d = 0} (Traced-emit_stmt s refl)

record_line-same : (line : ℕ) → Called (record_line line)
unfolding record_line
record_line-same line = Called-set _ λ g. same (line == 0) (g.emit_listing || g.teach_mode) g
  where
    same :
        (z t : Bool) (g : Generator)
        → let g' =
            if z
            then g
            else record g { line_entries = g.line_entries ++ ((length g.asm'.code, line) ∷ []) } in
          let h =
            if t
            then record g' { teach_map = g'.teach_map ++ ((line, length g.asm'.code) ∷ []) }
            else g' in
          (h.asm' ≡ g.asm') × (h.called ≡ g.called)
    same true true g = (refl, refl)
    same true false g = (refl, refl)
    same false true g = (refl, refl)
    same false false g = (refl, refl)

Called-push_all : (rs : List String) → Called (push_all rs)
unfolding push_all
Called-push_all rs = Called-for_each rs _ λ r. Called-asm _

Called-enter_fn :
    (name : String) (args : List String) (locals : List (String × ℕ))
    → Called (Functions.enter_fn name args locals)
unfolding Functions.enter_fn
Called-enter_fn name args locals = Called-bind (Called-asm _) λ _. Called-bind (Called-asm _) λ _.
    Called-bind (Called-asm _) λ _. Called-bind (Called-push_all _) λ _.
      Called-bind (Called-set _ λ g. (refl, refl)) λ _.
        Called-bind (Called-if _ _ _ (Called-asm _) Called-skip) λ _. Called-set _ λ g. (refl, refl)

Called-leave_fn : Called Functions.leave_fn
unfolding Functions.leave_fn
Called-leave_fn = Called-bind (Called-set _ λ g. (refl, refl)) λ _. Called-fn_epilogue

mutual
  unfolding emit emit_all

  pub Called-emit : (n : Node) → Called (emit n)
  Called-emit (at line col (Stmt.fn_def name args body locals)) =
      Called-bind (record_line-same line) λ _.
        Called-bind (Called-enter_fn name args locals)
          λ _. Called-bind (Called-emit_all body) λ _. Called-leave_fn
  Called-emit (at line col s) = Called-bind (record_line-same line) λ _. Called-emit_stmt s

  pub Called-emit_all : (ns : Nodes) → Called (emit_all ns)
  Called-emit_all nil = Called-skip
  Called-emit_all (cons n ns) = Called-bind (Called-emit n) λ _. Called-emit_all ns

-- ===== src/Codegen/Traced/Eval.antt =====
-- Evaluating an operand pushes and pops in balance.
use aclmv.Prelude.{ℕ, suc, String, Option, none, some}
use aclmv.Prelude.Int.{ℤ}
use aclmv.Ast.Expr.{Expr}
use aclmv.Codegen.{Gen, Generator, Struct}
use aclmv.Codegen.Eval.{
  eval, eval_or, eval_ident, eval_arg, eval_local, eval_const, eval_data, field_of, field_offset,
  combine,
}
use aclmv.Codegen.Traced.{
  Traced, Traced-bind, Traced-get, Traced-step, Traced-push, Traced-pop, traced_rules,
}

module _ {d : ℕ} where
  Traced-eval_data : (g : Generator) (name dst : String) → Traced d (eval_data g name dst) d
  Traced-eval_data g name dst = search traced_rules depth 20

  Traced-eval_const :
      (g : Generator) (name dst : String) (o : Option ℤ) → Traced d (eval_const g name dst o) d
  Traced-eval_const g name dst none = Traced-eval_data g name dst
  Traced-eval_const g name dst (some v) = search (traced_rules, Traced-eval_data) depth 20

  Traced-eval_local :
      (g : Generator) (name dst : String) (o : Option ℤ) → Traced d (eval_local g name dst o) d
  Traced-eval_local g name dst none = Traced-eval_const g name dst _
  Traced-eval_local g name dst (some v) = search traced_rules depth 20

  Traced-eval_arg :
      (g : Generator) (name dst : String) (o : Option String) → Traced d (eval_arg g name dst o) d
  Traced-eval_arg g name dst none = Traced-eval_local g name dst _
  Traced-eval_arg g name dst (some v) = search traced_rules depth 20

  Traced-eval_ident : (name dst : String) → Traced d (eval_ident name dst) d
  unfolding eval_ident
  Traced-eval_ident name dst = Traced-bind Traced-get λ g. Traced-eval_arg g name dst _

  Traced-field_of : (st name : String) (o : Option Struct) → Traced d (field_of st name o) d
  Traced-field_of st name none = search traced_rules
  Traced-field_of st name (some t) = search traced_rules depth 20

  pub Traced-field_offset : (st name : String) → Traced d (field_offset st name) d
  unfolding field_offset
  Traced-field_offset st name = Traced-bind Traced-get λ g. Traced-field_of st name _

  Traced-combine : (op : String) → Traced d (combine op) d
  unfolding combine
  Traced-combine op = search traced_rules depth 20

pub Traced-eval : {d : ℕ} (e : Expr) (dst : String) → Traced d (eval e dst) d
unfolding eval
Traced-eval (Expr.number v) dst = search traced_rules
Traced-eval (Expr.reg name) dst = search traced_rules depth 20
Traced-eval (Expr.ident name) dst = Traced-eval_ident name dst
Traced-eval (Expr.struct_field_ref st name) dst =
    search (traced_rules, Traced-field_offset) depth 20
Traced-eval {d} (Expr.bin_expr op left right) dst =
    let l = Traced-eval {d = d} left "r11" in
    let r = Traced-eval {d = suc d} right "r12" in
    Traced-step l λ _.
      Traced-push _ "r11"
        (Traced-step r λ _. Traced-pop _ "r11" (search (traced_rules, Traced-combine) depth 20))
Traced-eval (Expr.string s) dst = search traced_rules

pub Traced-eval_or :
    {d : ℕ} (o : Option Expr) (dst : String) {m : Gen (Unit {0})}
    → Traced d m d
    → Traced d (eval_or o dst m) d
unfolding eval_or
Traced-eval_or (some e) dst h = Traced-eval e dst
Traced-eval_or none dst h = h

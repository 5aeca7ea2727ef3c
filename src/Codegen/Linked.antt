-- ===== src/Codegen/Linked.antt =====
-- `generate`: what the linked code of a program satisfies.
use aclmv.Prelude.{◌≡◌}
use aclmv.Ast.Expr.{Expr}
use aclmv.Ast.Program
use aclmv.Ast.Stmt.{Stmt, at, Nodes}
use aclmv.Encoder.Invariant.{IsValid}
use aclmv.Codegen.{Generator, Gen, done}
use aclmv.Codegen.Generate.{emit_program, exit_call}
use aclmv.Codegen.LinkTable.{LinkTable}
use aclmv.Codegen.Called.{
  Called, Called-bind, Called-if, Called-get, Called-skip, Called-emit_all, called_rules,
}

-- The invariant of the assembler, kept by a method of the generator.
record Safe {A : Type 0} (m : Gen A) : Type 0 where
  pub at : (g g' : Generator) (a : A) → IsValid g.asm' → m g ≡ done a g' → IsValid g'.asm'

Called-exit_call : Called exit_call
unfolding exit_call
Called-exit_call = search called_rules depth 20

pub Called-emit_program : (ns : Nodes) → Called (emit_program ns)
unfolding emit_program
Called-emit_program ns = Called-bind (Called-emit_all _) λ _.
    Called-bind Called-get
      λ g. Called-bind (Called-if _ _ _ Called-exit_call Called-skip) λ _. Called-emit_all _

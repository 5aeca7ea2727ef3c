-- ===== src/Codegen/DataLayout.antt =====
-- Where the code generator places the data of a program: the pass of ACLM/codegen.py, `_collect_data`.
use aclmv.Prelude.{ℕ, ◌%◌, ◌≡◌, length, Assoc}
use aclmv.Ast.Expr.{Expr}
use aclmv.Ast.Program
use aclmv.Ast.Stmt.{Stmt}
use aclmv.Codegen.{Struct, Generator}
use aclmv.Codegen.Stored.{Datum, Placed}

-- Between two statements: the next offset is the number of bytes so far, and has the alignment asked for.
record Next (structs : Assoc Struct) (off al : ℕ) (t : Assoc Datum) (g : Generator) : Type 0 where
  pub same_structs : g.structs ≡ structs
  pub next : length g.data_bytes ≡ off
  pub ready : off % al ≡ 0
  pub so_far : Placed t g

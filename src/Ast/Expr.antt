-- ===== src/Ast/Expr.antt =====
-- ACLM/ast_nodes.py: the operands.
use aclmv.Prelude.{ℕ, String}
use aclmv.Prelude.Int.{ℤ}

-- The nodes that stand for a value: Number, String, Reg, Ident, StructFieldRef and BinExpr. Where the
-- source's field may be None, the model's has the type `Option Expr`.
pub data Expr : Type 0 where
  number : ℤ → Expr
  string : String → Expr
  reg : String → Expr
  ident : String → Expr
  struct_field_ref : String → String → Expr
  bin_expr : String → Expr → Expr → Expr

-- The offset of a load or store: an int, or a node.
pub data Offset : Type 0 where
  plain : ℤ → Offset
  node : Expr → Offset

-- The size of an allocation: an int, or the name of a struct.
pub data Size : Type 0 where
  of_bytes : ℕ → Size
  of_struct : String → Size

-- The number of a system call: a Number node, or a name.
pub data SysNum : Type 0 where
  literal : ℤ → SysNum
  named : String → SysNum

-- ===== src/Ast/Program.antt =====
-- ACLM/ast_nodes.py: labels, jumps, data, memory, calls and directives.
use aclmv.Prelude.{ℕ, String, Option, List}
use aclmv.Prelude.Int.{ℤ}
use aclmv.Ast.Expr.{Expr, Offset, Size, SysNum}

pub record Label : Type 0 where
  pub name : String

pub record Goto : Type 0 where
  pub label : String

pub record JumpIf : Type 0 where
  pub cond : String
  pub label : String

pub record Cmp : Type 0 where
  pub left : Expr
  pub right : Expr

pub record DataAlloc : Type 0 where
  pub name : String
  pub size : Size

pub record DataConst : Type 0 where
  pub name : String
  pub value : Expr

pub record MemLoad : Type 0 where
  pub dest : String
  pub base : Expr
  pub offset : Offset
  pub size : ℕ
  pub index : Option Expr
  pub scale : ℕ

pub record MemStore : Type 0 where
  pub base : Expr
  pub offset : Offset
  pub value : Expr
  pub size : ℕ
  pub index : Option Expr
  pub scale : ℕ

pub record SysCall : Type 0 where
  pub num : SysNum
  pub args : List Expr

pub record Call : Type 0 where
  pub label : String
  pub args : List Expr

pub record StackPush : Type 0 where
  pub value : Expr

pub record StackPop : Type 0 where
  pub dest : String

pub record FlagSetcc : Type 0 where
  pub dest : String
  pub cond : String

pub record SysRaw : Type 0 where
  pub num : Expr
  pub args : List Expr

pub record RawBytes : Type 0 where
  pub hex_parts : List ℕ

pub record Include : Type 0 where
  pub path : String

pub record StructDef : Type 0 where
  pub name : String
  pub fields : List (String × ℕ)

pub record LocalDecl : Type 0 where
  pub name : String
  pub size : ℕ

pub record RetVal : Type 0 where
  pub value : Option Expr

pub record DataBytes : Type 0 where
  pub name : String
  pub values : List ℕ

pub record AssertBytes : Type 0 where
  pub name : String
  pub limit : ℕ
  pub op : String

pub record AssertSize : Type 0 where
  pub what : String
  pub limit : ℕ

pub record DataAlign : Type 0 where
  pub align : ℕ

pub record SectionAt : Type 0 where
  pub name : String
  pub addr : ℤ

-- ===== src/Ast/Cpu.antt =====
-- ACLM/ast_nodes.py: the arithmetic statements.
use aclmv.Prelude.{ℕ, String, Option}
use aclmv.Prelude.Int.{ℤ}
use aclmv.Ast.Expr.{Expr}

pub record CpuBin : Type 0 where
  pub op : String
  pub dest : String
  pub value : Expr

pub record CpuUnary : Type 0 where
  pub op : String
  pub dest : String

pub record CpuLea : Type 0 where
  pub dest : String
  pub base : Expr
  pub index : Option Expr
  pub scale : ℕ
  pub offset : ℤ

pub record CpuTest : Type 0 where
  pub left : Expr
  pub right : Expr

pub record CpuCmov : Type 0 where
  pub dest : String
  pub src : Expr
  pub cond : String

pub record CpuXchg : Type 0 where
  pub a : String
  pub b : String

pub record CpuXadd : Type 0 where
  pub dest : String
  pub src : String

pub record CpuBitScan : Type 0 where
  pub op : String
  pub dest : String
  pub src : Expr

pub record CpuBt : Type 0 where
  pub base : String
  pub offset : Expr

pub record CpuMovExt : Type 0 where
  pub op : String
  pub dest : String
  pub src : Expr
  pub size : ℕ

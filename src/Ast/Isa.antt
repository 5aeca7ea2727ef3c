-- ===== src/Ast/Isa.antt =====
-- ACLM/ast_nodes.py: the statements for single instructions.
use aclmv.Prelude.{ℕ, String}
use aclmv.Prelude.Int.{ℤ}
use aclmv.Ast.Expr.{Expr}

pub record CpuLeaRip : Type 0 where
  pub dest : String
  pub label : String

pub record CpuLeaAbs : Type 0 where
  pub dest : String
  pub addr : ℤ

pub record CpuShld : Type 0 where
  pub dest : String
  pub src : String

pub record CpuShrd : Type 0 where
  pub dest : String
  pub src : String

pub record CpuImulImm : Type 0 where
  pub dest : String
  pub imm : ℤ

pub record CpuAndn : Type 0 where
  pub dest : String
  pub src1 : String
  pub src2 : String

pub record CpuBzhi : Type 0 where
  pub dest : String
  pub src : String
  pub ctrl : String

pub record CpuCmpxchg16b : Type 0 where
  pub base : Expr
  pub offset : ℤ

pub record CpuCmovMem : Type 0 where
  pub dest : String
  pub base : Expr
  pub offset : ℤ
  pub cond : String

pub record PrefixedOp : Type 0 where
  pub prefix : String

pub record CpuAdc : Type 0 where
  pub dest : String
  pub src : String

pub record CpuSbb : Type 0 where
  pub dest : String
  pub src : String

pub record CpuBswap : Type 0 where
  pub dest : String

pub record CpuFlagOp : Type 0 where
  pub op : String

pub record CpuMulDiv1 : Type 0 where
  pub op : String
  pub src : String

pub record CpuTestImm : Type 0 where
  pub dest : String
  pub imm : ℤ

pub record CpuBitOp : Type 0 where
  pub op : String
  pub base : String
  pub offset : String

pub record CpuPopcnt : Type 0 where
  pub dest : String
  pub src : String

pub record CpuLzcnt : Type 0 where
  pub dest : String
  pub src : String

pub record CpuTzcnt : Type 0 where
  pub dest : String
  pub src : String

pub record CpuMovsxd : Type 0 where
  pub dest : String
  pub src : String

pub record CpuShlx : Type 0 where
  pub dest : String
  pub src : String
  pub cnt : String

pub record CpuShrx : Type 0 where
  pub dest : String
  pub src : String
  pub cnt : String

pub record CpuSarx : Type 0 where
  pub dest : String
  pub src : String
  pub cnt : String

pub record CpuRorx : Type 0 where
  pub dest : String
  pub src : String
  pub imm : ℤ

pub record CpuBextr : Type 0 where
  pub dest : String
  pub src : String
  pub ctrl : String

pub record CpuBlsi : Type 0 where
  pub dest : String
  pub src : String

pub record CpuBlsr : Type 0 where
  pub dest : String
  pub src : String

pub record CpuBlsmsk : Type 0 where
  pub dest : String
  pub src : String

pub record CpuAdcx : Type 0 where
  pub dest : String
  pub src : String

pub record CpuAdox : Type 0 where
  pub dest : String
  pub src : String

pub record CpuCrc32 : Type 0 where
  pub dest : String
  pub src : String

pub record CpuRdrand : Type 0 where
  pub dest : String

pub record CpuRdseed : Type 0 where
  pub dest : String

pub record CpuPext : Type 0 where
  pub dest : String
  pub src : String
  pub mask : String

pub record CpuPdep : Type 0 where
  pub dest : String
  pub src : String
  pub mask : String

pub record CpuMulx : Type 0 where
  pub dest_hi : String
  pub dest_lo : String
  pub src : String

pub record CpuCmpxchg : Type 0 where
  pub dest : String
  pub src : String

pub record CpuPrefetch : Type 0 where
  pub kind : String
  pub base : String

pub record CpuClflush : Type 0 where
  pub base : String

pub record CpuMovzx : Type 0 where
  pub dest : String
  pub src : String
  pub width : ℕ

pub record CpuMovsx : Type 0 where
  pub dest : String
  pub src : String
  pub width : ℕ

pub record CpuBitImm : Type 0 where
  pub op : String
  pub base : String
  pub imm : ℤ

pub record CpuShldImm : Type 0 where
  pub dest : String
  pub src : String
  pub imm : ℤ

pub record CpuShrdImm : Type 0 where
  pub dest : String
  pub src : String
  pub imm : ℤ

pub record CpuEnter : Type 0 where
  pub size : ℤ
  pub nesting : ℤ

pub record CpuImul3 : Type 0 where
  pub dest : String
  pub src : String
  pub imm : ℤ

pub record CpuMxcsr : Type 0 where
  pub op : String
  pub base : String

pub record CpuFx : Type 0 where
  pub op : String
  pub base : String

pub record CpuFsGs : Type 0 where
  pub op : String
  pub reg : String

pub record CpuPrivOp : Type 0 where
  pub op : String
  pub reg : String

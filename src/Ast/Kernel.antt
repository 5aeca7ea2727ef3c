-- ===== src/Ast/Kernel.antt =====
-- ACLM/ast_nodes.py: the statements of a freestanding kernel.
use aclmv.Prelude.{ℕ, String}
use aclmv.Prelude.Int.{ℤ}
use aclmv.Ast.Expr.{Expr}

pub record ChipTicks : Type 0 where
  pub dest : String

pub record ChipId : Type 0 where
  pub leaf : Expr
  pub dest_a : String
  pub dest_b : String
  pub dest_c : String
  pub dest_d : String

pub record PortOut : Type 0 where
  pub port : Expr
  pub value : Expr

pub record PortIn : Type 0 where
  pub dest : String
  pub port : Expr

pub record ChipSerialPutc : Type 0 where
  pub value : Expr

pub record ChipLidt : Type 0 where
  pub base : String

pub record ChipLgdt : Type 0 where
  pub base : String

pub record KernelHeapInit : Type 0 where
  pub size : ℕ

pub record KernelHeapAlloc : Type 0 where
  pub dest : String
  pub size : Expr

pub record KernelCtxSave : Type 0 where
  pub dest : String

pub record KernelCtxLoad : Type 0 where
  pub src : String

pub record ChipKbdPoll : Type 0 where
  pub dest : String

pub record ChipInt : Type 0 where
  pub vec : ℤ

pub record ChipPitInit : Type 0 where
  pub divisor : ℕ

pub record KernelCoopSwitch : Type 0 where
  pub save : String
  pub load : String

pub record KernelPrintkStr : Type 0 where
  pub src : Expr

pub record KernelTickRead : Type 0 where
  pub dest : String

pub record KernelRamfsPut : Type 0 where
  pub name : Expr
  pub data' : Expr
  pub length : Expr

pub record KernelRamfsGet : Type 0 where
  pub dest : String
  pub name : Expr

pub record KernelNetPoll : Type 0 where
  pub dest : String

pub record KernelCsRing : Type 0 where
  pub dest : String

pub record KernelEnterUser : Type 0 where
  pub entry : Expr
  pub stack : Expr

pub record KernelNetAllowPort : Type 0 where
  pub port : ℤ

pub record KernelNetCheckPort : Type 0 where
  pub dest : String
  pub port : Expr

pub record KernelPreemptArm : Type 0 where
  pub ctx : String

pub record KernelNicBar : Type 0 where
  pub addr : Expr

pub record KernelNicRegRead : Type 0 where
  pub dest : String
  pub offset : Expr

pub record KernelNicRegWrite : Type 0 where
  pub offset : Expr
  pub value : Expr

pub record KernelSyscallRegister : Type 0 where
  pub nr : ℤ
  pub handler : String

pub record KernelDmaRingInit : Type 0 where
  pub slots : ℕ

pub record KernelDmaRingPush : Type 0 where
  pub addr : Expr
  pub length : Expr

pub record KernelDmaRingPop : Type 0 where
  pub dest_addr : String
  pub dest_len : String

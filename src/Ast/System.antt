-- ===== src/Ast/System.antt =====
-- ACLM/ast_nodes.py: system calls, threads, networking, blocks of memory and vectors.
use aclmv.Prelude.{String, Option}
use aclmv.Prelude.Int.{ℤ}
use aclmv.Ast.Expr.{Expr}

pub record BlastFill : Type 0 where
  pub dest : String
  pub byte_val : Expr
  pub length : Expr

pub record BlastCopy : Type 0 where
  pub dest : String
  pub src : Expr
  pub length : Expr

pub record WireLen : Type 0 where
  pub dest : String
  pub src : Expr

pub record WireCmp : Type 0 where
  pub dest : String
  pub left : Expr
  pub right : Expr

pub record WireCopy : Type 0 where
  pub dest : Expr
  pub src : Expr

pub record WireEmit : Type 0 where
  pub src : Expr
  pub length : Option Expr

pub record TrapNeg : Type 0 where
  pub label : String

pub record CellMap : Type 0 where
  pub dest : String
  pub size : Expr
  pub prot : Option Expr
  pub flags : Option Expr

pub record CellFree : Type 0 where
  pub ptr : Expr
  pub size : Expr

pub record GateCas : Type 0 where
  pub addr : String
  pub expected : String
  pub desired : String

pub record GateSpin : Type 0 where
  pub addr : String

pub record PulseSleep : Type 0 where
  pub ns : Expr

pub record PulseNow : Type 0 where
  pub dest : String

pub record GateFence : Type 0 where
  pub kind : String

pub record VecLoad : Type 0 where
  pub xmm : String
  pub base : Expr
  pub offset : ℤ

pub record VecStore : Type 0 where
  pub base : Expr
  pub offset : ℤ
  pub xmm : String

pub record VecBin : Type 0 where
  pub op : String
  pub dst : String
  pub src : String

pub record ThreadSpawn : Type 0 where
  pub dest : String
  pub label : String

pub record ThreadJoin : Type 0 where
  pub tid : Expr

pub record ThreadExit : Type 0 where
  pub code : Option Expr

pub record VecVBin : Type 0 where
  pub op : String
  pub dst : String
  pub src : String
  pub imm : ℤ

pub record VecVLoad : Type 0 where
  pub ymm : String
  pub base : Expr
  pub offset : ℤ

pub record VecVStore : Type 0 where
  pub base : Expr
  pub offset : ℤ
  pub ymm : String

pub record ErrStatus : Type 0 where
  pub dest : String

pub record BlastRepFill : Type 0 where
  pub dest : String
  pub byte_val : Expr
  pub length : Expr

pub record BlastRepCopy : Type 0 where
  pub dest : String
  pub src : Expr
  pub length : Expr

pub record NetSocket : Type 0 where
  pub dest : String
  pub domain : Expr
  pub type_ : Expr
  pub protocol : Expr

pub record NetConnect : Type 0 where
  pub sock : Expr
  pub addr : Expr
  pub addrlen : Expr

pub record NetSend : Type 0 where
  pub sock : Expr
  pub buf : Expr
  pub length : Expr

pub record NetRecv : Type 0 where
  pub sock : Expr
  pub buf : Expr
  pub length : Expr

pub record NetClose : Type 0 where
  pub sock : Expr

pub record CellProtect : Type 0 where
  pub ptr : Expr
  pub size : Expr
  pub prot : Expr

pub record SigAction : Type 0 where
  pub signo : Expr
  pub handler : String

pub record CellMapFile : Type 0 where
  pub dest : String
  pub size : Expr
  pub fd : Expr
  pub offset : Option Expr
  pub prot : Option Expr

pub record NetPoll : Type 0 where
  pub fds : Expr
  pub nfds : Expr
  pub timeout : Expr

pub record NetEpollCreate : Type 0 where
  pub dest : String
  pub flags : Option Expr

pub record NetEpollCtl : Type 0 where
  pub epfd : Expr
  pub op : Expr
  pub fd : Expr
  pub event_ptr : Expr

pub record NetEpollWait : Type 0 where
  pub dest : String
  pub epfd : Expr
  pub events : Expr
  pub maxevents : Expr
  pub timeout : Expr

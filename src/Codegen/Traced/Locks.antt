-- ===== src/Codegen/Traced/Locks.antt =====
-- The handlers of codegen.py push and pop in balance: Locks.
use aclmv.Prelude.{ℕ}
use aclmv.Ast.System
use aclmv.Codegen.Locks
use aclmv.Codegen.Traced.{Traced, traced_rules}

pub Traced-gate_cas : {d : ℕ} (s : System.GateCas) → Traced d (Locks.gate_cas s) d
unfolding Locks.gate_cas
Traced-gate_cas s = search traced_rules depth 120 fits 4000

pub Traced-gate_spin : {d : ℕ} (s : System.GateSpin) → Traced d (Locks.gate_spin s) d
unfolding Locks.gate_spin
Traced-gate_spin s = search traced_rules depth 120 fits 4000

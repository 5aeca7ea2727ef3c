-- ===== src/Codegen/Traced/Signals.antt =====
-- The handlers of codegen.py push and pop in balance: Signals.
use aclmv.Prelude.{ℕ}
use aclmv.Ast.System
use aclmv.Codegen.Signals
use aclmv.Codegen.Traced.{Traced, traced_rules}
use aclmv.Codegen.Traced.Eval.{Traced-eval}

pub Traced-sig_action : {d : ℕ} (s : System.SigAction) → Traced d (Signals.sig_action s) d
unfolding Signals.sig_action
Traced-sig_action s = search (traced_rules, Traced-eval) depth 120 fits 4000

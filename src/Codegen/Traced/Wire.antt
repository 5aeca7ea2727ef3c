-- ===== src/Codegen/Traced/Wire.antt =====
-- The handlers of codegen.py push and pop in balance: Wire.
use aclmv.Prelude.{ℕ}
use aclmv.Ast.System
use aclmv.Codegen.Wire
use aclmv.Codegen.Traced.{Traced, traced_rules}
use aclmv.Codegen.Traced.Eval.{Traced-eval}

pub Traced-wire_len : {d : ℕ} (s : System.WireLen) → Traced d (Wire.wire_len s) d
unfolding Wire.wire_len
Traced-wire_len s = search (traced_rules, Traced-eval) depth 120 fits 4000

pub Traced-wire_cmp : {d : ℕ} (s : System.WireCmp) → Traced d (Wire.wire_cmp s) d
unfolding Wire.wire_cmp
Traced-wire_cmp s = search (traced_rules, Traced-eval) depth 120 fits 4000

pub Traced-wire_copy : {d : ℕ} (s : System.WireCopy) → Traced d (Wire.wire_copy s) d
unfolding Wire.wire_copy
Traced-wire_copy s = search (traced_rules, Traced-eval) depth 120 fits 4000

pub Traced-wire_emit : {d : ℕ} (s : System.WireEmit) → Traced d (Wire.wire_emit s) d
unfolding Wire.wire_emit
Traced-wire_emit s = search (traced_rules, Traced-eval) depth 120 fits 4000

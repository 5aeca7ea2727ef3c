-- ===== src/Codegen/Traced/Cells.antt =====
-- The handlers of codegen.py push and pop in balance: Cells.
use aclmv.Prelude.{ℕ}
use aclmv.Ast.System
use aclmv.Codegen.Cells
use aclmv.Codegen.Traced.{Traced, traced_rules}
use aclmv.Codegen.Traced.Eval.{Traced-eval, Traced-eval_or}

pub Traced-cell_map : {d : ℕ} (s : System.CellMap) → Traced d (Cells.cell_map s) d
unfolding Cells.cell_map
Traced-cell_map s = search (traced_rules, Traced-eval, Traced-eval_or) depth 120 fits 4000

pub Traced-cell_mapfile : {d : ℕ} (s : System.CellMapFile) → Traced d (Cells.cell_mapfile s) d
unfolding Cells.cell_mapfile
Traced-cell_mapfile s = search (traced_rules, Traced-eval, Traced-eval_or) depth 120 fits 4000

pub Traced-cell_free : {d : ℕ} (s : System.CellFree) → Traced d (Cells.cell_free s) d
unfolding Cells.cell_free
Traced-cell_free s = search (traced_rules, Traced-eval) depth 120 fits 4000

pub Traced-cell_protect : {d : ℕ} (s : System.CellProtect) → Traced d (Cells.cell_protect s) d
unfolding Cells.cell_protect
Traced-cell_protect s = search (traced_rules, Traced-eval) depth 120 fits 4000

pub Traced-pulse_sleep : {d : ℕ} (s : System.PulseSleep) → Traced d (Cells.pulse_sleep s) d
unfolding Cells.pulse_sleep
Traced-pulse_sleep s = search (traced_rules, Traced-eval) depth 120 fits 4000

pub Traced-pulse_now : {d : ℕ} (s : System.PulseNow) → Traced d (Cells.pulse_now s) d
unfolding Cells.pulse_now
Traced-pulse_now s = search traced_rules depth 120 fits 4000

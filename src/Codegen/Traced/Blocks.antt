-- ===== src/Codegen/Traced/Blocks.antt =====
-- The handlers of codegen.py push and pop in balance: Blocks.
use aclmv.Prelude.{ℕ}
use aclmv.Ast.System
use aclmv.Codegen.Blocks
use aclmv.Codegen.Traced.{Traced, traced_rules}
use aclmv.Codegen.Traced.Eval.{Traced-eval}

pub Traced-blast_fill : {d : ℕ} (s : System.BlastFill) → Traced d (Blocks.blast_fill s) d
unfolding Blocks.blast_fill
Traced-blast_fill s = search (traced_rules, Traced-eval) depth 120 fits 4000

pub Traced-blast_copy : {d : ℕ} (s : System.BlastCopy) → Traced d (Blocks.blast_copy s) d
unfolding Blocks.blast_copy
Traced-blast_copy s = search (traced_rules, Traced-eval) depth 120 fits 4000

pub Traced-blast_rep_fill : {d : ℕ} (s : System.BlastRepFill) → Traced d (Blocks.blast_rep_fill s) d
unfolding Blocks.blast_rep_fill
Traced-blast_rep_fill s = search (traced_rules, Traced-eval) depth 120 fits 4000

pub Traced-blast_rep_copy : {d : ℕ} (s : System.BlastRepCopy) → Traced d (Blocks.blast_rep_copy s) d
unfolding Blocks.blast_rep_copy
Traced-blast_rep_copy s = search (traced_rules, Traced-eval) depth 120 fits 4000

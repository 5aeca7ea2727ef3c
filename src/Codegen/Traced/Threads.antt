-- ===== src/Codegen/Traced/Threads.antt =====
-- The handlers of codegen.py push and pop in balance: Threads.
use aclmv.Prelude.{ℕ}
use aclmv.Ast.System
use aclmv.Codegen.Threads
use aclmv.Codegen.Traced.{Traced, traced_rules}
use aclmv.Codegen.Traced.Eval.{Traced-eval_or}

pub Traced-thread_spawn : {d : ℕ} (s : System.ThreadSpawn) → Traced d (Threads.thread_spawn s) d
unfolding Threads.thread_spawn
Traced-thread_spawn s = search traced_rules depth 120 fits 4000

pub Traced-thread_join : {d : ℕ} → Traced d Threads.thread_join d
unfolding Threads.thread_join
Traced-thread_join = search traced_rules depth 120 fits 4000

pub Traced-thread_join_all : {d : ℕ} → Traced d Threads.thread_join_all d
unfolding Threads.thread_join_all
Traced-thread_join_all = search traced_rules depth 120 fits 4000

pub Traced-thread_exit : {d : ℕ} (s : System.ThreadExit) → Traced d (Threads.thread_exit s) d
unfolding Threads.thread_exit
Traced-thread_exit s = search (traced_rules, Traced-eval_or) depth 120 fits 4000

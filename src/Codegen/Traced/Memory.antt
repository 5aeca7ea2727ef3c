-- ===== src/Codegen/Traced/Memory.antt =====
-- The handlers of codegen.py push and pop in balance: Memory.
use aclmv.Prelude.{ℕ, ◌≡◌, arith, String, Option, none, some}
use aclmv.Prelude.Int.{ℤ}
use aclmv.Ast.Expr.{Expr, Offset}
use aclmv.Ast.Program
use aclmv.Ast.Cpu
use aclmv.Ast.System
use aclmv.Codegen.Memory
use aclmv.Codegen.Traced.{Traced, Traced-step, depth_after, traced_rules}
use aclmv.Codegen.Traced.Eval.{Traced-eval, Traced-field_offset}

pub Traced-base_reg : {d : ℕ} (s : Expr) → Traced d (Memory.base_reg s) d
unfolding Memory.base_reg
Traced-base_reg (Expr.reg name) = search traced_rules
Traced-base_reg (Expr.ident name) = search traced_rules depth 20
Traced-base_reg (Expr.number v) = search traced_rules
Traced-base_reg (Expr.string v) = search traced_rules
Traced-base_reg (Expr.struct_field_ref a b) = search traced_rules
Traced-base_reg (Expr.bin_expr op a b) = search traced_rules

pub Traced-base_phys : {d : ℕ} (s : Expr) → Traced d (Memory.base_phys s) d
unfolding Memory.base_phys
Traced-base_phys (Expr.reg name) = search traced_rules
Traced-base_phys (Expr.ident name) = search traced_rules depth 20
Traced-base_phys (Expr.number v) = search traced_rules depth 20
Traced-base_phys (Expr.string v) = search traced_rules
Traced-base_phys (Expr.struct_field_ref a b) = search traced_rules
Traced-base_phys (Expr.bin_expr op a b) = search traced_rules

Traced-apply_offset : {d : ℕ} (op : String) (l r : ℤ) → Traced d (Memory.apply_offset op l r) d
Traced-apply_offset op l r = search traced_rules depth 20

pub Traced-offset_value : {d : ℕ} (s : Expr) → Traced d (Memory.offset_value s) d
unfolding Memory.offset_value
Traced-offset_value (Expr.number v) = search traced_rules
Traced-offset_value (Expr.struct_field_ref a b) =
    search (traced_rules, Traced-field_offset) depth 20
Traced-offset_value (Expr.bin_expr op a b) =
    Traced-step (Traced-offset_value a)
      λ l. Traced-step (Traced-offset_value b) λ r. Traced-apply_offset op l r
Traced-offset_value (Expr.string v) = search traced_rules
Traced-offset_value (Expr.reg v) = search traced_rules
Traced-offset_value (Expr.ident v) = search traced_rules

pub Traced-resolve_offset : {d : ℕ} (s : Offset) → Traced d (Memory.resolve_offset s) d
unfolding Memory.resolve_offset
Traced-resolve_offset (Offset.plain v) = search traced_rules
Traced-resolve_offset (Offset.node e) = Traced-offset_value e

pub Traced-index_reg : {d : ℕ} (s : Option Expr) → Traced d (Memory.index_reg s) d
unfolding Memory.index_reg
Traced-index_reg none = search traced_rules
Traced-index_reg (some (Expr.reg name)) = search traced_rules depth 20
Traced-index_reg (some (Expr.ident v)) = search (traced_rules, Traced-eval) depth 20
Traced-index_reg (some (Expr.number v)) = search (traced_rules, Traced-eval) depth 20
Traced-index_reg (some (Expr.string v)) = search (traced_rules, Traced-eval) depth 20
Traced-index_reg (some (Expr.struct_field_ref a b)) = search (traced_rules, Traced-eval) depth 20
Traced-index_reg (some (Expr.bin_expr op a b)) = search (traced_rules, Traced-eval) depth 20

load_call-depth :
    {d : ℕ} (size : ℕ) (dst base : String) (off : ℤ) (idx : Option String) (sc : ℕ)
    → depth_after (Memory.load_call size dst base off idx sc) d ≡ some d
load_call-depth size dst base off idx sc = ground arith

pub Traced-mem_load : {d : ℕ} (s : Program.MemLoad) → Traced d (Memory.mem_load s) d
unfolding Memory.mem_load
Traced-mem_load s =
    search (traced_rules, load_call-depth, Traced-base_reg, Traced-resolve_offset, Traced-index_reg)
      depth 40

store_call-depth :
    {d : ℕ} (size : ℕ) (dst base : String) (off : ℤ) (idx : Option String) (sc : ℕ)
    → depth_after (Memory.store_call size base off dst idx sc) d ≡ some d
store_call-depth size dst base off idx sc = ground arith

pub Traced-mem_store : {d : ℕ} (s : Program.MemStore) → Traced d (Memory.mem_store s) d
unfolding Memory.mem_store
Traced-mem_store s =
    search
      (
        traced_rules, Traced-eval, store_call-depth, Traced-base_reg, Traced-resolve_offset,
        Traced-index_reg,
      )
      depth 40

pub Traced-vec_load : {d : ℕ} (s : System.VecLoad) → Traced d (Memory.vec_load s) d
unfolding Memory.vec_load
Traced-vec_load s = search (traced_rules, Traced-base_phys) depth 120 fits 4000

pub Traced-vec_store : {d : ℕ} (s : System.VecStore) → Traced d (Memory.vec_store s) d
unfolding Memory.vec_store
Traced-vec_store s = search (traced_rules, Traced-base_phys) depth 120 fits 4000

pub Traced-cpu_lea : {d : ℕ} (s : Cpu.CpuLea) → Traced d (Memory.cpu_lea s) d
unfolding Memory.cpu_lea
Traced-cpu_lea s = search (traced_rules, Traced-base_phys, Traced-index_reg) depth 120 fits 4000

Traced-movext_src : {d : ℕ} (s : Expr) → Traced d (Memory.movext_src s) d
Traced-movext_src (Expr.reg name) = search traced_rules
Traced-movext_src (Expr.ident v) = search (traced_rules, Traced-eval) depth 20
Traced-movext_src (Expr.number v) = search (traced_rules, Traced-eval) depth 20
Traced-movext_src (Expr.string v) = search (traced_rules, Traced-eval) depth 20
Traced-movext_src (Expr.struct_field_ref a b) = search (traced_rules, Traced-eval) depth 20
Traced-movext_src (Expr.bin_expr op a b) = search (traced_rules, Traced-eval) depth 20

extend-depth :
    {d : ℕ} (op dst src : String) (size : ℕ)
    → depth_after (Memory.extend op dst src size) d ≡ some d
extend-depth op dst src size = ground arith

pub Traced-cpu_movext : {d : ℕ} (s : Cpu.CpuMovExt) → Traced d (Memory.cpu_movext s) d
unfolding Memory.cpu_movext
Traced-cpu_movext s = search (traced_rules, Traced-movext_src, extend-depth) depth 40

pub Traced-cpu_test : {d : ℕ} (s : Cpu.CpuTest) → Traced d (Memory.cpu_test s) d
unfolding Memory.cpu_test
Traced-cpu_test s = search (traced_rules, Traced-eval) depth 120 fits 4000

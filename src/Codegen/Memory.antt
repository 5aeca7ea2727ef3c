-- ===== src/Codegen/Memory.antt =====
-- ACLM/codegen.py: loads, stores and addresses.
use aclmv.Prelude.{◌==◌, ℕ, String, str_eq, Option, none, some, if◌then◌else◌, lookup}
use aclmv.Prelude.Int.{ℤ, pos}
use aclmv.Ast.Expr.{Expr}
use aclmv.Ast.Program
use aclmv.Ast.Cpu
use aclmv.Ast.System
use aclmv.Encoder.Call
use aclmv.Ast.Expr.{Offset}
use aclmv.Prelude.Int.{add_ℤ, sub_ℤ, mul_ℤ, is_zero}
use aclmv.Codegen.{
  pure, bad_memory_base, non_constant_offset, unsupported_operator, Gen, ◌>>=◌, ◌>>◌, skip, raise,
  get, asm, resolve_name, on_option, data_label,
}
use aclmv.Codegen.Eval.{field_offset, eval}

unfoldable pub base_reg : Expr → Gen String
unfolding resolve_name
base_reg (Expr.reg name) = resolve_name name
base_reg (Expr.ident name) = do
  g ← get
  on_option (lookup name g.fn_locals)
      (λ off. do asm (Call.mov_reg_mem "r13" "rbp" off none 1); pure "r13")
      (do asm (Call.lea_reg_label "r11" (data_label name)); pure "r11")
base_reg _ = raise bad_memory_base

unfoldable pub base_phys : Expr → Gen String
unfolding resolve_name
base_phys (Expr.reg name) = resolve_name name
base_phys (Expr.ident name) = do asm (Call.lea_reg_label "r12" (data_label name)); pure "r12"
base_phys (Expr.number v) = do asm (Call.mov_reg_imm64 "r12" v); pure "r12"
base_phys _ = raise bad_memory_base

abbrev pub apply_offset : String → ℤ → ℤ → Gen ℤ
apply_offset op l r =
    if str_eq op "+"
    then pure (add_ℤ l r)
    else (if str_eq op "-"
        then pure (sub_ℤ l r)
        else (if str_eq op "*" then pure (mul_ℤ l r) else raise (unsupported_operator op)))

unfoldable pub offset_value : Expr → Gen ℤ
unfolding ◌>>=◌ field_offset
offset_value (Expr.number v) = pure v
offset_value (Expr.struct_field_ref st name) = do off ← field_offset st name; pure (pos off)
offset_value (Expr.bin_expr op left right) = do
  l ← offset_value left
  r ← offset_value right
  apply_offset op l r
offset_value _ = raise non_constant_offset

-- `_resolve_offset`
unfoldable pub resolve_offset : Offset → Gen ℤ
unfolding offset_value
resolve_offset (Offset.plain v) = pure v
resolve_offset (Offset.node e) = offset_value e

-- The index register of a statement: a register as it stands, another operand in r13.
unfoldable pub index_reg : Option Expr → Gen (Option String)
unfolding ◌>>=◌
index_reg none = pure none
index_reg (some (Expr.reg name)) = do r ← resolve_name name; pure (some r)
index_reg (some e) = do eval e "r13"; pure (some "r13")

-- `scale or 1`
abbrev or_one : ℕ → ℕ
or_one sc = if sc == 0 then 1 else sc

-- The load and the store of a size in bits; every size but 8, 16 and 32 is a quadword.
abbrev pub load_call : ℕ → String → String → ℤ → Option String → ℕ → Call.Call
load_call size =
    if size == 8
    then Call.mov8_reg_mem
    else (if size == 16
        then Call.mov16_reg_mem
        else (if size == 32 then Call.mov32_reg_mem else Call.mov_reg_mem))

abbrev pub store_call : ℕ → String → ℤ → String → Option String → ℕ → Call.Call
store_call size =
    if size == 8
    then Call.mov8_mem_reg
    else (if size == 16
        then Call.mov16_mem_reg
        else (if size == 32 then Call.mov32_mem_reg else Call.mov_mem_reg))

unfoldable pub mem_load : Program.MemLoad → Gen (Unit {0})
mem_load s = do
  base ← base_reg s.base
  off ← resolve_offset s.offset
  g ← get
  let loff = lookup s.dest g.fn_locals
  dst ← on_option loff (λ _. pure "r12") (resolve_name s.dest)
  idx ← index_reg s.index
  asm (load_call s.size dst base off idx (or_one s.scale))
  on_option loff (λ l. asm (Call.mov_mem_reg "rbp" l dst none 1)) skip

unfoldable pub mem_store : Program.MemStore → Gen (Unit {0})
mem_store s = do
  asm (Call.push_reg "r12")
  eval s.value "r12"
  base ← base_reg s.base
  off ← resolve_offset s.offset
  idx ← index_reg s.index
  asm (store_call s.size base off "r12" idx (or_one s.scale))
  asm (Call.pop_reg "r12")

unfoldable pub vec_load : System.VecLoad → Gen (Unit {0})
vec_load s = do base ← base_phys s.base; asm (Call.movups_xmm_mem s.xmm base s.offset)

unfoldable pub vec_store : System.VecStore → Gen (Unit {0})
vec_store s = do base ← base_phys s.base; asm (Call.movups_mem_xmm base s.xmm s.offset)

abbrev label_base : Expr → Option Expr → ℤ → Option String
label_base (Expr.ident name) none off = if is_zero off then some name else none
label_base _ _ _ = none

unfoldable pub cpu_lea : Cpu.CpuLea → Gen (Unit {0})
cpu_lea s = do
  dst ← resolve_name s.dest
  on_option (label_base s.base s.index s.offset)
      (λ name. asm (Call.lea_reg_label dst (data_label name)))
      (do
        base ← base_phys s.base
        idx ← index_reg s.index
        asm (Call.lea_reg_mem dst base s.offset idx s.scale))

abbrev pub extend : String → String → String → ℕ → Call.Call
extend op = if str_eq op "movsx" then Call.movsx_reg_reg else Call.movzx_reg_reg

abbrev pub movext_src : Expr → Gen String
movext_src (Expr.reg name) = resolve_name name
movext_src e = do eval e "r12"; pure "r12"

unfoldable pub cpu_movext : Cpu.CpuMovExt → Gen (Unit {0})
cpu_movext s = do
  dst ← resolve_name s.dest
  src ← movext_src s.src
  asm (extend s.op dst src s.size)

unfoldable pub cpu_test : Cpu.CpuTest → Gen (Unit {0})
cpu_test s = do eval s.left "r11"; eval s.right "r12"; asm (Call.test_reg_reg "r11" "r12")

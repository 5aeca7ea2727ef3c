-- ===== src/Codegen/Basic.antt =====
-- ACLM/codegen.py: the statements that `_emit` translates in place.
use aclmv.Prelude.{
  ℕ, String, str_eq, not, Option, none, List, [], ◌∷◌, ◌++◌, if◌then◌else◌, Assoc, length,
}
use aclmv.Prelude.Int.{pos}
use aclmv.Ast.Program
use aclmv.Ast.Cpu
use aclmv.Ast.System
use aclmv.Ast.Kernel
use aclmv.Encoder.Call
use aclmv.Prelude.{reverse, ltb}
use aclmv.Prelude.Text.{codes, lower, is_in}
use aclmv.Ast.Isa
use aclmv.Codegen.Isa.{method}
use aclmv.Codegen.Memory.{base_reg, base_phys}
use aclmv.Codegen.{
  not_a_byte, Gen, ◌>>=◌, ◌>>◌, skip, raise, set, asm, when, for_each, resolve_name, move_unless,
  push_all, lbl,
}
use aclmv.Codegen.Eval.{eval}

-- `SCRATCH` is r15.
unfoldable pub cmp : Program.Cmp → Gen (Unit {0})
cmp s = do
  asm (Call.push_reg "r11")
  eval s.left "r15"
  asm (Call.mov_reg_reg "r11" "r15")
  asm (Call.push_reg "r11")
  eval s.right "r15"
  asm (Call.pop_reg "r11")
  asm (Call.cmp_reg_reg "r11" "r15")
  asm (Call.pop_reg "r11")

unfoldable pub stack_push : Program.StackPush → Gen (Unit {0})
stack_push s = do eval s.value "r11"; asm (Call.push_reg "r11")

unfoldable pub trap_neg : System.TrapNeg → Gen (Unit {0})
trap_neg s = do asm (Call.test_reg_reg "rax" "rax"); asm (Call.jcc "lt" (lbl s.label))

unfoldable pub sig_return : Gen (Unit {0})
sig_return = do asm (Call.mov_reg_imm64 "rax" (pos 15)); asm Call.syscall

unfoldable pub chip_ticks : Kernel.ChipTicks → Gen (Unit {0})
chip_ticks s = do
  asm Call.rdtsc
  dst ← resolve_name s.dest
  move_unless dst "rax"
  asm (Call.mov_reg_imm64 "r15" (pos 0xffffffff))
  asm (Call.and_reg_reg dst "r15")

unfoldable pub chip_id : Kernel.ChipId → Gen (Unit {0})
chip_id s = do
  eval s.leaf "rax"
  asm (Call.xor_reg_reg "rcx" "rcx")
  asm Call.cpuid
  push_all (reverse ("rax" ∷ "rbx" ∷ "rcx" ∷ "rdx" ∷ []))
  for_each (s.dest_a ∷ s.dest_b ∷ s.dest_c ∷ s.dest_d ∷ [])
      λ dest. do d ← resolve_name dest; asm (Call.pop_reg d)

unfoldable pub gate_fence : System.GateFence → Gen (Unit {0})
gate_fence s =
    let k = lower (codes s.kind) in
    if is_in k ("lfence" ∷ [])
    then asm Call.lfence
    else (if is_in k ("sfence" ∷ []) then asm Call.sfence else asm Call.mfence)

unfoldable pub port_out : Kernel.PortOut → Gen (Unit {0})
port_out s = do eval s.port "rdx"; eval s.value "rax"; asm Call.out_dx_al

unfoldable pub port_in : Kernel.PortIn → Gen (Unit {0})
port_in s = do
  eval s.port "rdx"
  asm Call.in_al_dx
  dst ← resolve_name s.dest
  move_unless dst "rax"
  asm (Call.mov_reg_imm64 "r15" (pos 0xff))
  asm (Call.and_reg_reg dst "r15")

-- `getattr(self.asm, s.op)`, for the names that the parser produces.
abbrev pub vec_calls : Assoc (String → String → Call.Call)
vec_calls =
    ("addps", Call.addps)
    ∷ ("subps", Call.subps)
    ∷ ("mulps", Call.mulps)
    ∷ ("divps", Call.divps)
    ∷ []

abbrev pub vec_v_calls : Assoc (String → String → Option String → Call.Call)
vec_v_calls =
    ("vaddps", Call.vaddps)
    ∷ ("vsubps", Call.vsubps)
    ∷ ("vmulps", Call.vmulps)
    ∷ ("vdivps", Call.vdivps)
    ∷ []

unfoldable pub vec_bin : System.VecBin → Gen (Unit {0})
unfolding method
vec_bin s = do f ← method vec_calls s.op; asm (f s.dst s.src)

unfoldable pub vec_vbin : System.VecVBin → Gen (Unit {0})
unfolding method
vec_vbin s =
    if str_eq s.op "vshufps"
    then asm (Call.vshufps s.dst s.src s.imm)
    else (if str_eq s.op "vbroadcastss"
        then asm (Call.vbroadcastss s.dst s.src)
        else (do f ← method vec_v_calls s.op; asm (f s.dst s.src none)))

unfoldable pub vec_vload : System.VecVLoad → Gen (Unit {0})
vec_vload s = do base ← base_phys s.base; asm (Call.vmovups_load s.ymm base s.offset)

unfoldable pub vec_vstore : System.VecVStore → Gen (Unit {0})
vec_vstore s = do base ← base_phys s.base; asm (Call.vmovups_store base s.ymm s.offset)

unfoldable pub cpu_cmov : Cpu.CpuCmov → Gen (Unit {0})
cpu_cmov s = do
  eval s.src "r15"
  dst ← resolve_name s.dest
  asm (Call.cmov_reg_reg s.cond dst "r15")

-- `bytes(values)`, which raises for a number above 255.
unfoldable pub as_bytes : List ℕ → Gen (Unit {0})
unfolding ◌>>=◌
as_bytes [] = skip
as_bytes (b ∷ bs) = do when (not (ltb b 0x100)) (raise not_a_byte); as_bytes bs

unfoldable pub raw_bytes : Program.RawBytes → Gen (Unit {0})
unfolding as_bytes
raw_bytes s = do as_bytes s.hex_parts; asm (Call.raw_bytes s.hex_parts)

unfoldable pub assert_bytes : Program.AssertBytes → Gen (Unit {0})
assert_bytes s = set λ g. record g {
  assert_bytes =
      g.assert_bytes
      ++ (record { name = s.name; limit = s.limit; op = s.op; code_off = length g.asm'.code } ∷ []);
}

unfoldable pub assert_size : Program.AssertSize → Gen (Unit {0})
assert_size s = set λ g. record g { assert_sizes = g.assert_sizes ++ ((s.what, s.limit) ∷ []) }

unfoldable pub err_status : System.ErrStatus → Gen (Unit {0})
err_status s = do dst ← resolve_name s.dest; move_unless dst "rax"

unfoldable pub cpu_bit_scan : Cpu.CpuBitScan → Gen (Unit {0})
cpu_bit_scan s = do
  eval s.src "r15"
  dst ← resolve_name s.dest
  asm ((if str_eq s.op "bsf" then Call.bsf_reg_reg else Call.bsr_reg_reg) dst "r15")

unfoldable pub cpu_bt : Cpu.CpuBt → Gen (Unit {0})
cpu_bt s = do eval s.offset "r15"; base ← resolve_name s.base; asm (Call.bt_reg_reg base "r15")

unfoldable pub cpu_cmpxchg16b : Isa.CpuCmpxchg16b → Gen (Unit {0})
cpu_cmpxchg16b s = do base ← base_reg s.base; asm (Call.cmpxchg16b_mem base s.offset)

unfoldable pub cpu_cmov_mem : Isa.CpuCmovMem → Gen (Unit {0})
cpu_cmov_mem s = do
  base ← base_reg s.base
  dst ← resolve_name s.dest
  asm (Call.cmov_reg_mem s.cond dst base s.offset)

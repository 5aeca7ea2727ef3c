-- ===== src/Codegen/Traced/Basic.antt =====
-- The handlers of codegen.py push and pop in balance: Basic.
use aclmv.Prelude.{ℕ, suc, refl, str_eq, not, ltb, [], ◌∷◌, String, List, none}
use aclmv.Ast.Isa
use aclmv.Ast.Program
use aclmv.Ast.Cpu
use aclmv.Ast.System
use aclmv.Ast.Kernel
use aclmv.Encoder.Call
use aclmv.Codegen.{for_each, ◌>>=◌, asm, resolve_name}
use aclmv.Codegen.Basic
use aclmv.Codegen.Traced.{
  Traced, Traced-set, Traced-step, Traced-bind, Traced-asm, Traced-skip, Traced-if, Traced-raise,
  Traced-pushes, Traced-resolve_name, traced_rules,
}
use aclmv.Codegen.Traced.Eval.{Traced-eval}
use aclmv.Codegen.Isa.{method}
use aclmv.Codegen.Traced.Memory.{Traced-base_reg, Traced-base_phys}
use aclmv.Codegen.Traced.Isa.{Traced-method, methods2-depth}

pub Traced-cmp : {d : ℕ} (s : Program.Cmp) → Traced d (Basic.cmp s) d
unfolding Basic.cmp
Traced-cmp s = search (traced_rules, Traced-eval) depth 120 fits 4000

pub Traced-trap_neg : {d : ℕ} (s : System.TrapNeg) → Traced d (Basic.trap_neg s) d
unfolding Basic.trap_neg
Traced-trap_neg s = search traced_rules depth 120 fits 4000

pub Traced-sig_return : {d : ℕ} → Traced d Basic.sig_return d
unfolding Basic.sig_return
Traced-sig_return = search traced_rules depth 120 fits 4000

pub Traced-chip_ticks : {d : ℕ} (s : Kernel.ChipTicks) → Traced d (Basic.chip_ticks s) d
unfolding Basic.chip_ticks
Traced-chip_ticks s = search traced_rules depth 120 fits 4000

Traced-pop_named :
    {d : ℕ} (name : String) → Traced (suc d) (resolve_name name >>= λ r. asm (Call.pop_reg r)) d
Traced-pop_named name = Traced-bind (Traced-resolve_name name) λ r. Traced-asm (Call.pop_reg r) refl

Traced-chip_id_pops :
    {d : ℕ} (a b c e : String)
    → Traced
        (suc (suc (suc (suc d))))
        (for_each (a ∷ b ∷ c ∷ e ∷ []) λ x. resolve_name x >>= λ r. asm (Call.pop_reg r))
        d
unfolding for_each
Traced-chip_id_pops a b c e = Traced-bind (Traced-pop_named a) λ _.
    Traced-bind (Traced-pop_named b)
      λ _. Traced-bind (Traced-pop_named c) λ _. Traced-bind (Traced-pop_named e) λ _. Traced-skip

pub Traced-chip_id : {d : ℕ} (s : Kernel.ChipId) → Traced d (Basic.chip_id s) d
unfolding Basic.chip_id
Traced-chip_id s = Traced-step (Traced-eval s.leaf "rax") λ _. Traced-step (Traced-asm _ refl) λ _.
    Traced-step (Traced-asm _ refl)
      λ _. Traced-pushes _ _ (Traced-chip_id_pops s.dest_a s.dest_b s.dest_c s.dest_d)

pub Traced-gate_fence : {d : ℕ} (s : System.GateFence) → Traced d (Basic.gate_fence s) d
unfolding Basic.gate_fence
Traced-gate_fence s = search traced_rules depth 120 fits 4000

pub Traced-port_out : {d : ℕ} (s : Kernel.PortOut) → Traced d (Basic.port_out s) d
unfolding Basic.port_out
Traced-port_out s = search (traced_rules, Traced-eval) depth 120 fits 4000

pub Traced-port_in : {d : ℕ} (s : Kernel.PortIn) → Traced d (Basic.port_in s) d
unfolding Basic.port_in
Traced-port_in s = search (traced_rules, Traced-eval) depth 120 fits 4000

pub Traced-vec_bin : {d : ℕ} (s : System.VecBin) → Traced d (Basic.vec_bin s) d
unfolding Basic.vec_bin
Traced-vec_bin s =
    Traced-method _ s.op _
      (Traced-asm _ refl, (Traced-asm _ refl, (Traced-asm _ refl, (Traced-asm _ refl, tt))))

Traced-vec_v_method :
    {d : ℕ} (s : System.VecVBin)
    → Traced d (method Basic.vec_v_calls s.op >>= λ f. asm (f s.dst s.src none)) d
Traced-vec_v_method s =
    Traced-method _ s.op _
      (Traced-asm _ refl, (Traced-asm _ refl, (Traced-asm _ refl, (Traced-asm _ refl, tt))))

pub Traced-vec_vbin : {d : ℕ} (s : System.VecVBin) → Traced d (Basic.vec_vbin s) d
unfolding Basic.vec_vbin
Traced-vec_vbin s = search (traced_rules, Traced-vec_v_method) depth 20

pub Traced-vec_vload : {d : ℕ} (s : System.VecVLoad) → Traced d (Basic.vec_vload s) d
unfolding Basic.vec_vload
Traced-vec_vload s = search (traced_rules, Traced-base_phys) depth 120 fits 4000

pub Traced-vec_vstore : {d : ℕ} (s : System.VecVStore) → Traced d (Basic.vec_vstore s) d
unfolding Basic.vec_vstore
Traced-vec_vstore s = search (traced_rules, Traced-base_phys) depth 120 fits 4000

pub Traced-cpu_cmov : {d : ℕ} (s : Cpu.CpuCmov) → Traced d (Basic.cpu_cmov s) d
unfolding Basic.cpu_cmov
Traced-cpu_cmov s = search (traced_rules, Traced-eval) depth 120 fits 4000

pub Traced-as_bytes : {d : ℕ} (bs : List ℕ) → Traced d (Basic.as_bytes bs) d
unfolding Basic.as_bytes
Traced-as_bytes [] = Traced-skip
Traced-as_bytes (b ∷ bs) =
    Traced-step (Traced-if (not (ltb b 0x100)) (Traced-raise _) Traced-skip) λ _. Traced-as_bytes bs

pub Traced-raw_bytes : {d : ℕ} (s : Program.RawBytes) → Traced d (Basic.raw_bytes s) d
unfolding Basic.raw_bytes
Traced-raw_bytes s = search (traced_rules, Traced-as_bytes) depth 120 fits 4000

pub Traced-assert_bytes : {d : ℕ} (s : Program.AssertBytes) → Traced d (Basic.assert_bytes s) d
unfolding Basic.assert_bytes
Traced-assert_bytes s = Traced-set _ λ g. (refl, refl)

pub Traced-assert_size : {d : ℕ} (s : Program.AssertSize) → Traced d (Basic.assert_size s) d
unfolding Basic.assert_size
Traced-assert_size s = Traced-set _ λ g. (refl, refl)

pub Traced-err_status : {d : ℕ} (s : System.ErrStatus) → Traced d (Basic.err_status s) d
unfolding Basic.err_status
Traced-err_status s = search traced_rules depth 120 fits 4000

pub Traced-cpu_bit_scan : {d : ℕ} (s : Cpu.CpuBitScan) → Traced d (Basic.cpu_bit_scan s) d
unfolding Basic.cpu_bit_scan
Traced-cpu_bit_scan s = Traced-step (Traced-eval s.src "r15") λ _.
    Traced-step (Traced-resolve_name s.dest) λ dst.
      Traced-asm _
        (methods2-depth (str_eq s.op "bsf") Call.bsf_reg_reg Call.bsr_reg_reg dst "r15" refl refl)

pub Traced-cpu_bt : {d : ℕ} (s : Cpu.CpuBt) → Traced d (Basic.cpu_bt s) d
unfolding Basic.cpu_bt
Traced-cpu_bt s = search (traced_rules, Traced-eval) depth 120 fits 4000

pub Traced-cpu_cmpxchg16b : {d : ℕ} (s : Isa.CpuCmpxchg16b) → Traced d (Basic.cpu_cmpxchg16b s) d
unfolding Basic.cpu_cmpxchg16b
Traced-cpu_cmpxchg16b s = search (traced_rules, Traced-base_reg) depth 120 fits 4000

pub Traced-cpu_cmov_mem : {d : ℕ} (s : Isa.CpuCmovMem) → Traced d (Basic.cpu_cmov_mem s) d
unfolding Basic.cpu_cmov_mem
Traced-cpu_cmov_mem s = search (traced_rules, Traced-base_reg) depth 120 fits 4000

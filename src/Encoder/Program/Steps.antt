-- ===== src/Encoder/Program/Steps.antt =====
-- Every call keeps the invariant of the assembler, and so does every program.
use aclmv.Prelude.{ℕ, String, Option, List, [], ◌∷◌, Bool, some, none, ◌^◌}
use aclmv.Prelude.Int.{ℤ, wrap}
use aclmv.Encoder.{Assembler, reg_num}
use aclmv.Encoder.Flow
use aclmv.Encoder.Move
use aclmv.Encoder.Memory
use aclmv.Encoder.Arith
use aclmv.Encoder.Shift
use aclmv.Encoder.BitOps
use aclmv.Encoder.Vex
use aclmv.Encoder.System
use aclmv.Encoder.Disp8
use aclmv.Encoder.Sse
use aclmv.Encoder.Avx
use aclmv.Encoder.Keeps.{Keeps, keeps_rules, Keeps-label, Keeps-seq, Keeps-skip, Keeps-lift}
use aclmv.Encoder.Call.{Call}
use aclmv.Encoder.Program.{perform, assemble}

Keeps-emit_operand :
    (r b : ℕ) (use_sib : Bool) (sib mod' : ℕ) (disp : ℤ)
    → Keeps (Memory.emit_operand r b use_sib sib mod' disp)
unfolding Memory.emit_operand
Keeps-emit_operand r b use_sib sib mod' disp = search keeps_rules depth 20

Keeps-emit_mem_op :
    (opcode : ℕ) (reg base : String) (disp : ℤ) (index : Option String) (scale : ℕ)
    → Keeps (Memory.emit_mem_op opcode reg base disp index scale)
unfolding Memory.emit_mem_op
Keeps-emit_mem_op opcode reg base disp index scale =
    search (keeps_rules, Keeps-emit_operand) depth 20

Keeps-emit_mem_op_0f :
    (opcode : ℕ) (reg base : String) (disp : ℤ) (index : Option String) (scale : ℕ)
    → Keeps (Memory.emit_mem_op_0f opcode reg base disp index scale)
unfolding Memory.emit_mem_op_0f
Keeps-emit_mem_op_0f opcode reg base disp index scale =
    search (keeps_rules, Keeps-emit_operand) depth 20

Keeps-emit_mem_op_sized :
    (opcode : ℕ) (reg base : String) (disp : ℤ) (index : Option String) (scale size : ℕ)
    → Keeps (Memory.emit_mem_op_sized opcode reg base disp index scale size)
unfolding Memory.emit_mem_op_sized
Keeps-emit_mem_op_sized opcode reg base disp index scale size =
    search (keeps_rules, Keeps-emit_operand) depth 20

Keeps-mov32_reg_mem :
    (reg base : String) (disp : ℤ) (index : Option String) (scale : ℕ)
    → Keeps (Memory.mov32_reg_mem reg base disp index scale)
unfolding Memory.mov32_reg_mem
Keeps-mov32_reg_mem reg base disp index scale = search (keeps_rules, Keeps-emit_operand) depth 20

Keeps-lea_indexed :
    (d b : ℕ) (disp : ℤ) (index : String) (scale : ℕ)
    → Keeps (Memory.lea_indexed d b disp index scale)
unfolding Memory.lea_indexed
Keeps-lea_indexed d b disp index scale = search keeps_rules depth 20

Keeps-lea_plain : (d b : ℕ) (disp : ℤ) → Keeps (Memory.lea_plain d b disp)
unfolding Memory.lea_plain
Keeps-lea_plain d b disp = search keeps_rules depth 20

Keeps-binop_reg_reg : (opcode : ℕ) (dst src : String) → Keeps (Arith.binop_reg_reg opcode dst src)
unfolding Arith.binop_reg_reg
Keeps-binop_reg_reg opcode dst src = search keeps_rules depth 20

Keeps-binop_reg_imm32 :
    (ext : ℕ) (dst : String) (imm : ℤ) → Keeps (Arith.binop_reg_imm32 ext dst imm)
unfolding Arith.binop_reg_imm32
Keeps-binop_reg_imm32 ext dst imm = search keeps_rules depth 20

Keeps-movups : (opcode2 x b : ℕ) (disp : ℤ) → Keeps (Sse.movups opcode2 x b disp)
unfolding Sse.movups
Keeps-movups opcode2 x b disp = search keeps_rules depth 20

Keeps-sse_binop_xmm_xmm :
    (opcode2 : ℕ) (dst src : String) → Keeps (Sse.sse_binop_xmm_xmm opcode2 dst src)
unfolding Sse.sse_binop_xmm_xmm
Keeps-sse_binop_xmm_xmm opcode2 dst src = search keeps_rules depth 20

Keeps-vex_nnds_ps :
    (opcode : ℕ) (dst src1 src2 : String) → Keeps (Avx.vex_nnds_ps opcode dst src1 src2)
unfolding Avx.vex_nnds_ps
Keeps-vex_nnds_ps opcode dst src1 src2 = search keeps_rules depth 20

Keeps-lea_branch :
    (d b : ℕ) (disp : ℤ) (index : Option String) (scale : ℕ)
    → Keeps (Memory.lea_branch d b disp index scale)
Keeps-lea_branch d b disp none scale = Keeps-lea_plain d b disp
Keeps-lea_branch d b disp (some index) scale = Keeps-lea_indexed d b disp index scale

Keeps-vex_binop :
    (opcode : ℕ) (dst src1 : String) (src2 : Option String)
    → Keeps (Avx.vex_binop opcode dst src1 src2)
Keeps-vex_binop opcode dst src1 none = Keeps-vex_nnds_ps opcode dst dst src1
Keeps-vex_binop opcode dst src1 (some src2) = Keeps-vex_nnds_ps opcode dst src1 src2

Keeps-mov_imm : (s : Assembler) (d imm : ℕ) → Keeps (Move.mov_imm s d imm)
unfolding Move.mov_imm Move.emit_imm64 Move.emit_imm32 Move.emit_simm32
Keeps-mov_imm s d imm = search keeps_rules depth 20

-- The method reads `deterministic` from the assembler that it is called on.
Keeps-mov_reg_imm64 : (dst : String) (imm : ℤ) → Keeps (Move.mov_reg_imm64 dst imm)
unfolding Move.mov_reg_imm64
Keeps-mov_reg_imm64 dst imm = record {
  at = λ s s' v h.
      (Keeps-lift (reg_num dst) (λ d. Move.mov_imm s d (wrap (2 ^ 64) imm))
          (λ d. Keeps-mov_imm s d (wrap (2 ^ 64) imm))).at
        s s' v h;
}

pub Keeps-perform : (c : Call) → Keeps (perform c)
unfolding perform Flow.setcc_reg Flow.jmp Flow.jcc Flow.call Flow.ret Flow.leave Flow.push_reg
    Flow.pop_reg Flow.syscall Flow.nop Flow.cmov_reg_reg Flow.call_reg Flow.int_imm Flow.enter_imm
    Flow.lea_reg_label Move.mov_reg_reg Move.xchg_reg_reg Memory.mov_reg_mem Memory.mov_mem_reg
    Memory.mov8_reg_mem Memory.mov16_reg_mem Memory.mov8_mem_reg Memory.mov16_mem_reg
    Memory.mov32_mem_reg Memory.lea_reg_mem Memory.lock_cmpxchg_mem Arith.add_reg_reg
    Arith.sub_reg_reg Arith.and_reg_reg Arith.or_reg_reg Arith.xor_reg_reg Arith.cmp_reg_reg
    Arith.test_reg_reg Arith.adc_reg_reg Arith.sbb_reg_reg Arith.add_reg_imm Arith.sub_reg_imm
    Arith.and_reg_imm Arith.or_reg_imm Arith.imul_reg_reg Arith.idiv_reg Arith.cqo Arith.not_reg
    Arith.neg_reg Arith.inc_reg Arith.dec_reg Arith.mul_reg Arith.div_reg Arith.test_reg_imm32
    Arith.imul_reg_imm Arith.imul_reg_reg_imm Arith.xadd_reg_reg Arith.bswap_reg Shift.shl_reg_imm8
    Shift.shr_reg_imm8 Shift.rol_reg_imm8 Shift.ror_reg_imm8 Shift.shl_reg_cl Shift.shr_reg_cl
    Shift.rol_reg_cl Shift.ror_reg_cl Shift.sar_reg_imm8 Shift.sar_reg_cl Shift.rcl_reg_imm8
    Shift.rcr_reg_imm8 Shift.rcl_reg_cl Shift.rcr_reg_cl Shift.sal_reg_imm8 Shift.sal_reg_cl
    Shift.shld_reg_reg Shift.shrd_reg_reg Shift.shld_reg_imm8 Shift.shrd_reg_imm8
    BitOps.movzx_reg_reg BitOps.movsx_reg_reg BitOps.bsf_reg_reg BitOps.bsr_reg_reg
    BitOps.bt_reg_reg BitOps.bts_reg_reg BitOps.btr_reg_reg BitOps.btc_reg_reg BitOps.popcnt_reg_reg
    BitOps.lzcnt_reg_reg BitOps.tzcnt_reg_reg BitOps.movsxd_reg_reg BitOps.adcx_reg_reg
    BitOps.adox_reg_reg BitOps.crc32_reg_reg BitOps.rdrand_reg BitOps.rdseed_reg
    BitOps.cmpxchg_reg_reg BitOps.movzx_r64_r8 BitOps.movzx_r64_r16 BitOps.movsx_r64_r8
    BitOps.movsx_r64_r16 BitOps.bt_reg_imm8 BitOps.bts_reg_imm8 BitOps.btr_reg_imm8
    BitOps.btc_reg_imm8 Vex.andn_reg_reg Vex.bzhi_reg_reg Vex.shlx_reg_reg Vex.shrx_reg_reg
    Vex.sarx_reg_reg Vex.rorx_reg_imm Vex.bextr_reg_reg Vex.blsi_reg_reg Vex.blsr_reg_reg
    Vex.blsmsk_reg_reg Vex.pext_reg_reg Vex.pdep_reg_reg Vex.mulx_reg_reg System.cld System.std
    System.raw_bytes System.hlt System.rdtsc System.cpuid System.mfence System.lfence System.sfence
    System.cli System.sti System.in_al_dx System.out_dx_al System.rep_stosb System.rep_movsb
    System.lock_prefix System.rep_prefix System.clc System.stc System.cmc System.pause System.cdq
    System.cdqe System.pushfq System.popfq System.rdtscp System.endbr64 System.cbw System.cwde
    System.cwd System.nop_long System.xgetbv System.wrfsbase_reg System.wrgsbase_reg
    System.rdfsbase_reg System.rdgsbase_reg System.wbinvd System.clts System.str_reg System.sldt_reg
    System.smsw_reg System.rdmsr System.wrmsr System.rdpmc System.swapgs System.sysret
    System.sysenter System.sysexit System.iretq Disp8.cmpxchg16b_mem Disp8.prefetchw
    Disp8.prefetchnta Disp8.clflush Disp8.stmxcsr_mem Disp8.ldmxcsr_mem Disp8.fxsave_mem
    Disp8.fxrstor_mem Disp8.lidt_mem Disp8.lgdt_mem Disp8.cmov_reg_mem Sse.movups_xmm_mem
    Sse.movups_mem_xmm Sse.addps Sse.subps Sse.mulps Sse.divps Avx.vaddps Avx.vsubps Avx.vmulps
    Avx.vdivps Avx.vmovups_load Avx.vmovups_store Avx.vshufps Avx.vbroadcastss
Keeps-perform (Call.label_here name) = Keeps-label name
Keeps-perform (Call.setcc_reg r1 r2) = search keeps_rules depth 20
Keeps-perform (Call.jmp r) = search keeps_rules depth 20
Keeps-perform (Call.jcc r1 r2) = search keeps_rules depth 20
Keeps-perform (Call.call r) = search keeps_rules depth 20
Keeps-perform Call.ret = search keeps_rules depth 20
Keeps-perform Call.leave = search keeps_rules depth 20
Keeps-perform (Call.push_reg r) = search keeps_rules depth 20
Keeps-perform (Call.pop_reg r) = search keeps_rules depth 20
Keeps-perform Call.syscall = search keeps_rules depth 20
Keeps-perform Call.nop = search keeps_rules depth 20
Keeps-perform (Call.cmov_reg_reg r1 r2 r3) = search keeps_rules depth 20
Keeps-perform (Call.call_reg r) = search keeps_rules depth 20
Keeps-perform (Call.int_imm i) = search keeps_rules depth 20
Keeps-perform (Call.enter_imm i1 i2) = search keeps_rules depth 20
Keeps-perform (Call.lea_reg_label r1 r2) = search keeps_rules depth 20
Keeps-perform (Call.mov_reg_imm64 r i) = Keeps-mov_reg_imm64 r i
Keeps-perform (Call.mov_reg_reg r1 r2) = search keeps_rules depth 20
Keeps-perform (Call.xchg_reg_reg r1 r2) = search keeps_rules depth 20
Keeps-perform (Call.mov_reg_mem r1 r2 i index scale) = Keeps-emit_mem_op _ _ _ _ _ _
Keeps-perform (Call.mov_mem_reg r1 i r2 index scale) = Keeps-emit_mem_op _ _ _ _ _ _
Keeps-perform (Call.mov8_reg_mem r1 r2 i index scale) = Keeps-emit_mem_op_0f _ _ _ _ _ _
Keeps-perform (Call.mov16_reg_mem r1 r2 i index scale) = Keeps-emit_mem_op_0f _ _ _ _ _ _
Keeps-perform (Call.mov32_reg_mem r1 r2 i index scale) = Keeps-mov32_reg_mem _ _ _ _ _
Keeps-perform (Call.mov8_mem_reg r1 i r2 index scale) = Keeps-emit_mem_op_sized _ _ _ _ _ _ _
Keeps-perform (Call.mov16_mem_reg r1 i r2 index scale) = Keeps-emit_mem_op_sized _ _ _ _ _ _ _
Keeps-perform (Call.mov32_mem_reg r1 i r2 index scale) = Keeps-emit_mem_op_sized _ _ _ _ _ _ _
Keeps-perform (Call.lea_reg_mem r1 r2 i index scale) =
    search (keeps_rules, Keeps-lea_branch) depth 20
Keeps-perform (Call.lock_cmpxchg_mem r1 i r2) = search keeps_rules depth 20
Keeps-perform (Call.add_reg_reg r1 r2) = Keeps-binop_reg_reg _ _ _
Keeps-perform (Call.sub_reg_reg r1 r2) = Keeps-binop_reg_reg _ _ _
Keeps-perform (Call.and_reg_reg r1 r2) = Keeps-binop_reg_reg _ _ _
Keeps-perform (Call.or_reg_reg r1 r2) = Keeps-binop_reg_reg _ _ _
Keeps-perform (Call.xor_reg_reg r1 r2) = Keeps-binop_reg_reg _ _ _
Keeps-perform (Call.cmp_reg_reg r1 r2) = Keeps-binop_reg_reg _ _ _
Keeps-perform (Call.test_reg_reg r1 r2) = Keeps-binop_reg_reg _ _ _
Keeps-perform (Call.adc_reg_reg r1 r2) = Keeps-binop_reg_reg _ _ _
Keeps-perform (Call.sbb_reg_reg r1 r2) = Keeps-binop_reg_reg _ _ _
Keeps-perform (Call.add_reg_imm r i) = Keeps-binop_reg_imm32 _ _ _
Keeps-perform (Call.sub_reg_imm r i) = Keeps-binop_reg_imm32 _ _ _
Keeps-perform (Call.and_reg_imm r i) = Keeps-binop_reg_imm32 _ _ _
Keeps-perform (Call.or_reg_imm r i) = Keeps-binop_reg_imm32 _ _ _
Keeps-perform (Call.imul_reg_reg r1 r2) = search keeps_rules depth 20
Keeps-perform (Call.idiv_reg r) = search keeps_rules depth 20
Keeps-perform Call.cqo = search keeps_rules depth 20
Keeps-perform (Call.not_reg r) = search keeps_rules depth 20
Keeps-perform (Call.neg_reg r) = search keeps_rules depth 20
Keeps-perform (Call.inc_reg r) = search keeps_rules depth 20
Keeps-perform (Call.dec_reg r) = search keeps_rules depth 20
Keeps-perform (Call.mul_reg r) = search keeps_rules depth 20
Keeps-perform (Call.div_reg r) = search keeps_rules depth 20
Keeps-perform (Call.test_reg_imm32 r i) = search keeps_rules depth 20
Keeps-perform (Call.imul_reg_imm r i) = search keeps_rules depth 20
Keeps-perform (Call.imul_reg_reg_imm r1 r2 i) = search keeps_rules depth 20
Keeps-perform (Call.xadd_reg_reg r1 r2) = search keeps_rules depth 20
Keeps-perform (Call.bswap_reg r) = search keeps_rules depth 20
Keeps-perform (Call.shl_reg_imm8 r i) = search keeps_rules depth 20
Keeps-perform (Call.shr_reg_imm8 r i) = search keeps_rules depth 20
Keeps-perform (Call.rol_reg_imm8 r i) = search keeps_rules depth 20
Keeps-perform (Call.ror_reg_imm8 r i) = search keeps_rules depth 20
Keeps-perform (Call.shl_reg_cl r) = search keeps_rules depth 20
Keeps-perform (Call.shr_reg_cl r) = search keeps_rules depth 20
Keeps-perform (Call.rol_reg_cl r) = search keeps_rules depth 20
Keeps-perform (Call.ror_reg_cl r) = search keeps_rules depth 20
Keeps-perform (Call.sar_reg_imm8 r i) = search keeps_rules depth 20
Keeps-perform (Call.sar_reg_cl r) = search keeps_rules depth 20
Keeps-perform (Call.rcl_reg_imm8 r i) = search keeps_rules depth 20
Keeps-perform (Call.rcr_reg_imm8 r i) = search keeps_rules depth 20
Keeps-perform (Call.rcl_reg_cl r) = search keeps_rules depth 20
Keeps-perform (Call.rcr_reg_cl r) = search keeps_rules depth 20
Keeps-perform (Call.sal_reg_imm8 r i) = search keeps_rules depth 20
Keeps-perform (Call.sal_reg_cl r) = search keeps_rules depth 20
Keeps-perform (Call.shld_reg_reg r1 r2 cl) = search keeps_rules depth 20
Keeps-perform (Call.shrd_reg_reg r1 r2) = search keeps_rules depth 20
Keeps-perform (Call.shld_reg_imm8 r1 r2 i) = search keeps_rules depth 20
Keeps-perform (Call.shrd_reg_imm8 r1 r2 i) = search keeps_rules depth 20
Keeps-perform (Call.movzx_reg_reg r1 r2 scale) = search keeps_rules depth 20
Keeps-perform (Call.movsx_reg_reg r1 r2 scale) = search keeps_rules depth 20
Keeps-perform (Call.bsf_reg_reg r1 r2) = search keeps_rules depth 20
Keeps-perform (Call.bsr_reg_reg r1 r2) = search keeps_rules depth 20
Keeps-perform (Call.bt_reg_reg r1 r2) = search keeps_rules depth 20
Keeps-perform (Call.bts_reg_reg r1 r2) = search keeps_rules depth 20
Keeps-perform (Call.btr_reg_reg r1 r2) = search keeps_rules depth 20
Keeps-perform (Call.btc_reg_reg r1 r2) = search keeps_rules depth 20
Keeps-perform (Call.popcnt_reg_reg r1 r2) = search keeps_rules depth 20
Keeps-perform (Call.lzcnt_reg_reg r1 r2) = search keeps_rules depth 20
Keeps-perform (Call.tzcnt_reg_reg r1 r2) = search keeps_rules depth 20
Keeps-perform (Call.movsxd_reg_reg r1 r2) = search keeps_rules depth 20
Keeps-perform (Call.adcx_reg_reg r1 r2) = search keeps_rules depth 20
Keeps-perform (Call.adox_reg_reg r1 r2) = search keeps_rules depth 20
Keeps-perform (Call.crc32_reg_reg r1 r2) = search keeps_rules depth 20
Keeps-perform (Call.rdrand_reg r) = search keeps_rules depth 20
Keeps-perform (Call.rdseed_reg r) = search keeps_rules depth 20
Keeps-perform (Call.cmpxchg_reg_reg r1 r2) = search keeps_rules depth 20
Keeps-perform (Call.movzx_r64_r8 r1 r2) = search keeps_rules depth 20
Keeps-perform (Call.movzx_r64_r16 r1 r2) = search keeps_rules depth 20
Keeps-perform (Call.movsx_r64_r8 r1 r2) = search keeps_rules depth 20
Keeps-perform (Call.movsx_r64_r16 r1 r2) = search keeps_rules depth 20
Keeps-perform (Call.bt_reg_imm8 r i) = search keeps_rules depth 20
Keeps-perform (Call.bts_reg_imm8 r i) = search keeps_rules depth 20
Keeps-perform (Call.btr_reg_imm8 r i) = search keeps_rules depth 20
Keeps-perform (Call.btc_reg_imm8 r i) = search keeps_rules depth 20
Keeps-perform (Call.andn_reg_reg r1 r2 r3) = search keeps_rules depth 20
Keeps-perform (Call.bzhi_reg_reg r1 r2 r3) = search keeps_rules depth 20
Keeps-perform (Call.shlx_reg_reg r1 r2 r3) = search keeps_rules depth 20
Keeps-perform (Call.shrx_reg_reg r1 r2 r3) = search keeps_rules depth 20
Keeps-perform (Call.sarx_reg_reg r1 r2 r3) = search keeps_rules depth 20
Keeps-perform (Call.rorx_reg_imm r1 r2 i) = search keeps_rules depth 20
Keeps-perform (Call.bextr_reg_reg r1 r2 r3) = search keeps_rules depth 20
Keeps-perform (Call.blsi_reg_reg r1 r2) = search keeps_rules depth 20
Keeps-perform (Call.blsr_reg_reg r1 r2) = search keeps_rules depth 20
Keeps-perform (Call.blsmsk_reg_reg r1 r2) = search keeps_rules depth 20
Keeps-perform (Call.pext_reg_reg r1 r2 r3) = search keeps_rules depth 20
Keeps-perform (Call.pdep_reg_reg r1 r2 r3) = search keeps_rules depth 20
Keeps-perform (Call.mulx_reg_reg r1 r2 r3) = search keeps_rules depth 20
Keeps-perform Call.cld = search keeps_rules depth 20
Keeps-perform Call.std = search keeps_rules depth 20
Keeps-perform (Call.raw_bytes bytes) = search keeps_rules depth 20
Keeps-perform Call.hlt = search keeps_rules depth 20
Keeps-perform Call.rdtsc = search keeps_rules depth 20
Keeps-perform Call.cpuid = search keeps_rules depth 20
Keeps-perform Call.mfence = search keeps_rules depth 20
Keeps-perform Call.lfence = search keeps_rules depth 20
Keeps-perform Call.sfence = search keeps_rules depth 20
Keeps-perform Call.cli = search keeps_rules depth 20
Keeps-perform Call.sti = search keeps_rules depth 20
Keeps-perform Call.in_al_dx = search keeps_rules depth 20
Keeps-perform Call.out_dx_al = search keeps_rules depth 20
Keeps-perform Call.rep_stosb = search keeps_rules depth 20
Keeps-perform Call.rep_movsb = search keeps_rules depth 20
Keeps-perform Call.lock_prefix = search keeps_rules depth 20
Keeps-perform Call.rep_prefix = search keeps_rules depth 20
Keeps-perform Call.clc = search keeps_rules depth 20
Keeps-perform Call.stc = search keeps_rules depth 20
Keeps-perform Call.cmc = search keeps_rules depth 20
Keeps-perform Call.pause = search keeps_rules depth 20
Keeps-perform Call.cdq = search keeps_rules depth 20
Keeps-perform Call.cdqe = search keeps_rules depth 20
Keeps-perform Call.pushfq = search keeps_rules depth 20
Keeps-perform Call.popfq = search keeps_rules depth 20
Keeps-perform Call.rdtscp = search keeps_rules depth 20
Keeps-perform Call.endbr64 = search keeps_rules depth 20
Keeps-perform Call.cbw = search keeps_rules depth 20
Keeps-perform Call.cwde = search keeps_rules depth 20
Keeps-perform Call.cwd = search keeps_rules depth 20
Keeps-perform Call.nop_long = search keeps_rules depth 20
Keeps-perform Call.xgetbv = search keeps_rules depth 20
Keeps-perform (Call.wrfsbase_reg r) = search keeps_rules depth 20
Keeps-perform (Call.wrgsbase_reg r) = search keeps_rules depth 20
Keeps-perform (Call.rdfsbase_reg r) = search keeps_rules depth 20
Keeps-perform (Call.rdgsbase_reg r) = search keeps_rules depth 20
Keeps-perform Call.wbinvd = search keeps_rules depth 20
Keeps-perform Call.clts = search keeps_rules depth 20
Keeps-perform (Call.str_reg r) = search keeps_rules depth 20
Keeps-perform (Call.sldt_reg r) = search keeps_rules depth 20
Keeps-perform (Call.smsw_reg r) = search keeps_rules depth 20
Keeps-perform Call.rdmsr = search keeps_rules depth 20
Keeps-perform Call.wrmsr = search keeps_rules depth 20
Keeps-perform Call.rdpmc = search keeps_rules depth 20
Keeps-perform Call.swapgs = search keeps_rules depth 20
Keeps-perform Call.sysret = search keeps_rules depth 20
Keeps-perform Call.sysenter = search keeps_rules depth 20
Keeps-perform Call.sysexit = search keeps_rules depth 20
Keeps-perform Call.iretq = search keeps_rules depth 20
Keeps-perform (Call.cmpxchg16b_mem r i) = search keeps_rules depth 20
Keeps-perform (Call.prefetchw r i) = search keeps_rules depth 20
Keeps-perform (Call.prefetchnta r i) = search keeps_rules depth 20
Keeps-perform (Call.clflush r i) = search keeps_rules depth 20
Keeps-perform (Call.stmxcsr_mem r i) = search keeps_rules depth 20
Keeps-perform (Call.ldmxcsr_mem r i) = search keeps_rules depth 20
Keeps-perform (Call.fxsave_mem r i) = search keeps_rules depth 20
Keeps-perform (Call.fxrstor_mem r i) = search keeps_rules depth 20
Keeps-perform (Call.lidt_mem r i) = search keeps_rules depth 20
Keeps-perform (Call.lgdt_mem r i) = search keeps_rules depth 20
Keeps-perform (Call.cmov_reg_mem r1 r2 r3 i) = search keeps_rules depth 20
Keeps-perform (Call.movups_xmm_mem r1 r2 i) = search (keeps_rules, Keeps-movups) depth 20
Keeps-perform (Call.movups_mem_xmm r1 r2 i) = search (keeps_rules, Keeps-movups) depth 20
Keeps-perform (Call.addps r1 r2) = Keeps-sse_binop_xmm_xmm _ _ _
Keeps-perform (Call.subps r1 r2) = Keeps-sse_binop_xmm_xmm _ _ _
Keeps-perform (Call.mulps r1 r2) = Keeps-sse_binop_xmm_xmm _ _ _
Keeps-perform (Call.divps r1 r2) = Keeps-sse_binop_xmm_xmm _ _ _
Keeps-perform (Call.vaddps r1 r2 index) = Keeps-vex_binop _ _ _ _
Keeps-perform (Call.vsubps r1 r2 index) = Keeps-vex_binop _ _ _ _
Keeps-perform (Call.vmulps r1 r2 index) = Keeps-vex_binop _ _ _ _
Keeps-perform (Call.vdivps r1 r2 index) = Keeps-vex_binop _ _ _ _
Keeps-perform (Call.vmovups_load r1 r2 i) = search keeps_rules depth 20
Keeps-perform (Call.vmovups_store r1 r2 i) = search keeps_rules depth 20
Keeps-perform (Call.vshufps r1 r2 i) = search keeps_rules depth 20
Keeps-perform (Call.vbroadcastss r1 r2) = search keeps_rules depth 20

pub Keeps-assemble : (cs : List Call) → Keeps (assemble cs)
unfolding assemble
Keeps-assemble [] = Keeps-skip
Keeps-assemble (c ∷ cs) = Keeps-seq (perform c) (assemble cs) (Keeps-perform c) (Keeps-assemble cs)

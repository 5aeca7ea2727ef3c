-- ===== src/Encoder/Program.antt =====
-- Programs: sequences of calls of the encoder's methods, in the order in which the code generator makes them.
pub mod Steps
pub mod Linked
use aclmv.Prelude.{List, [], ◌∷◌}
use aclmv.Encoder.{Asm, label, skip, ◌>>=◌, ◌>>◌}
use aclmv.Encoder.Call
use aclmv.Encoder.Call.{Call}
use aclmv.Encoder.Flow
use aclmv.Encoder.Move
use aclmv.Encoder.Memory
use aclmv.Encoder.Arith
use aclmv.Encoder.Shift
use aclmv.Encoder.BitOps
use aclmv.Encoder.Vex
use aclmv.Encoder.System
use aclmv.Encoder.Disp8
use aclmv.Encoder.Sse
use aclmv.Encoder.Avx

unfoldable pub perform : Call → Asm (Unit {0})
perform (Call.label_here name) = label name
perform (Call.setcc_reg r1 r2) = Flow.setcc_reg r1 r2
perform (Call.jmp r) = Flow.jmp r
perform (Call.jcc r1 r2) = Flow.jcc r1 r2
perform (Call.call r) = Flow.call r
perform Call.ret = Flow.ret
perform Call.leave = Flow.leave
perform (Call.push_reg r) = Flow.push_reg r
perform (Call.pop_reg r) = Flow.pop_reg r
perform Call.syscall = Flow.syscall
perform Call.nop = Flow.nop
perform (Call.cmov_reg_reg r1 r2 r3) = Flow.cmov_reg_reg r1 r2 r3
perform (Call.call_reg r) = Flow.call_reg r
perform (Call.int_imm i) = Flow.int_imm i
perform (Call.enter_imm i1 i2) = Flow.enter_imm i1 i2
perform (Call.lea_reg_label r1 r2) = Flow.lea_reg_label r1 r2
perform (Call.mov_reg_imm64 r i) = Move.mov_reg_imm64 r i
perform (Call.mov_reg_reg r1 r2) = Move.mov_reg_reg r1 r2
perform (Call.xchg_reg_reg r1 r2) = Move.xchg_reg_reg r1 r2
perform (Call.mov_reg_mem r1 r2 i index scale) = Memory.mov_reg_mem r1 r2 i index scale
perform (Call.mov_mem_reg r1 i r2 index scale) = Memory.mov_mem_reg r1 i r2 index scale
perform (Call.mov8_reg_mem r1 r2 i index scale) = Memory.mov8_reg_mem r1 r2 i index scale
perform (Call.mov16_reg_mem r1 r2 i index scale) = Memory.mov16_reg_mem r1 r2 i index scale
perform (Call.mov32_reg_mem r1 r2 i index scale) = Memory.mov32_reg_mem r1 r2 i index scale
perform (Call.mov8_mem_reg r1 i r2 index scale) = Memory.mov8_mem_reg r1 i r2 index scale
perform (Call.mov16_mem_reg r1 i r2 index scale) = Memory.mov16_mem_reg r1 i r2 index scale
perform (Call.mov32_mem_reg r1 i r2 index scale) = Memory.mov32_mem_reg r1 i r2 index scale
perform (Call.lea_reg_mem r1 r2 i index scale) = Memory.lea_reg_mem r1 r2 i index scale
perform (Call.lock_cmpxchg_mem r1 i r2) = Memory.lock_cmpxchg_mem r1 i r2
perform (Call.add_reg_reg r1 r2) = Arith.add_reg_reg r1 r2
perform (Call.sub_reg_reg r1 r2) = Arith.sub_reg_reg r1 r2
perform (Call.and_reg_reg r1 r2) = Arith.and_reg_reg r1 r2
perform (Call.or_reg_reg r1 r2) = Arith.or_reg_reg r1 r2
perform (Call.xor_reg_reg r1 r2) = Arith.xor_reg_reg r1 r2
perform (Call.cmp_reg_reg r1 r2) = Arith.cmp_reg_reg r1 r2
perform (Call.test_reg_reg r1 r2) = Arith.test_reg_reg r1 r2
perform (Call.adc_reg_reg r1 r2) = Arith.adc_reg_reg r1 r2
perform (Call.sbb_reg_reg r1 r2) = Arith.sbb_reg_reg r1 r2
perform (Call.add_reg_imm r i) = Arith.add_reg_imm r i
perform (Call.sub_reg_imm r i) = Arith.sub_reg_imm r i
perform (Call.and_reg_imm r i) = Arith.and_reg_imm r i
perform (Call.or_reg_imm r i) = Arith.or_reg_imm r i
perform (Call.imul_reg_reg r1 r2) = Arith.imul_reg_reg r1 r2
perform (Call.idiv_reg r) = Arith.idiv_reg r
perform Call.cqo = Arith.cqo
perform (Call.not_reg r) = Arith.not_reg r
perform (Call.neg_reg r) = Arith.neg_reg r
perform (Call.inc_reg r) = Arith.inc_reg r
perform (Call.dec_reg r) = Arith.dec_reg r
perform (Call.mul_reg r) = Arith.mul_reg r
perform (Call.div_reg r) = Arith.div_reg r
perform (Call.test_reg_imm32 r i) = Arith.test_reg_imm32 r i
perform (Call.imul_reg_imm r i) = Arith.imul_reg_imm r i
perform (Call.imul_reg_reg_imm r1 r2 i) = Arith.imul_reg_reg_imm r1 r2 i
perform (Call.xadd_reg_reg r1 r2) = Arith.xadd_reg_reg r1 r2
perform (Call.bswap_reg r) = Arith.bswap_reg r
perform (Call.shl_reg_imm8 r i) = Shift.shl_reg_imm8 r i
perform (Call.shr_reg_imm8 r i) = Shift.shr_reg_imm8 r i
perform (Call.rol_reg_imm8 r i) = Shift.rol_reg_imm8 r i
perform (Call.ror_reg_imm8 r i) = Shift.ror_reg_imm8 r i
perform (Call.shl_reg_cl r) = Shift.shl_reg_cl r
perform (Call.shr_reg_cl r) = Shift.shr_reg_cl r
perform (Call.rol_reg_cl r) = Shift.rol_reg_cl r
perform (Call.ror_reg_cl r) = Shift.ror_reg_cl r
perform (Call.sar_reg_imm8 r i) = Shift.sar_reg_imm8 r i
perform (Call.sar_reg_cl r) = Shift.sar_reg_cl r
perform (Call.rcl_reg_imm8 r i) = Shift.rcl_reg_imm8 r i
perform (Call.rcr_reg_imm8 r i) = Shift.rcr_reg_imm8 r i
perform (Call.rcl_reg_cl r) = Shift.rcl_reg_cl r
perform (Call.rcr_reg_cl r) = Shift.rcr_reg_cl r
perform (Call.sal_reg_imm8 r i) = Shift.sal_reg_imm8 r i
perform (Call.sal_reg_cl r) = Shift.sal_reg_cl r
perform (Call.shld_reg_reg r1 r2 cl) = Shift.shld_reg_reg r1 r2 cl
perform (Call.shrd_reg_reg r1 r2) = Shift.shrd_reg_reg r1 r2
perform (Call.shld_reg_imm8 r1 r2 i) = Shift.shld_reg_imm8 r1 r2 i
perform (Call.shrd_reg_imm8 r1 r2 i) = Shift.shrd_reg_imm8 r1 r2 i
perform (Call.movzx_reg_reg r1 r2 scale) = BitOps.movzx_reg_reg r1 r2 scale
perform (Call.movsx_reg_reg r1 r2 scale) = BitOps.movsx_reg_reg r1 r2 scale
perform (Call.bsf_reg_reg r1 r2) = BitOps.bsf_reg_reg r1 r2
perform (Call.bsr_reg_reg r1 r2) = BitOps.bsr_reg_reg r1 r2
perform (Call.bt_reg_reg r1 r2) = BitOps.bt_reg_reg r1 r2
perform (Call.bts_reg_reg r1 r2) = BitOps.bts_reg_reg r1 r2
perform (Call.btr_reg_reg r1 r2) = BitOps.btr_reg_reg r1 r2
perform (Call.btc_reg_reg r1 r2) = BitOps.btc_reg_reg r1 r2
perform (Call.popcnt_reg_reg r1 r2) = BitOps.popcnt_reg_reg r1 r2
perform (Call.lzcnt_reg_reg r1 r2) = BitOps.lzcnt_reg_reg r1 r2
perform (Call.tzcnt_reg_reg r1 r2) = BitOps.tzcnt_reg_reg r1 r2
perform (Call.movsxd_reg_reg r1 r2) = BitOps.movsxd_reg_reg r1 r2
perform (Call.adcx_reg_reg r1 r2) = BitOps.adcx_reg_reg r1 r2
perform (Call.adox_reg_reg r1 r2) = BitOps.adox_reg_reg r1 r2
perform (Call.crc32_reg_reg r1 r2) = BitOps.crc32_reg_reg r1 r2
perform (Call.rdrand_reg r) = BitOps.rdrand_reg r
perform (Call.rdseed_reg r) = BitOps.rdseed_reg r
perform (Call.cmpxchg_reg_reg r1 r2) = BitOps.cmpxchg_reg_reg r1 r2
perform (Call.movzx_r64_r8 r1 r2) = BitOps.movzx_r64_r8 r1 r2
perform (Call.movzx_r64_r16 r1 r2) = BitOps.movzx_r64_r16 r1 r2
perform (Call.movsx_r64_r8 r1 r2) = BitOps.movsx_r64_r8 r1 r2
perform (Call.movsx_r64_r16 r1 r2) = BitOps.movsx_r64_r16 r1 r2
perform (Call.bt_reg_imm8 r i) = BitOps.bt_reg_imm8 r i
perform (Call.bts_reg_imm8 r i) = BitOps.bts_reg_imm8 r i
perform (Call.btr_reg_imm8 r i) = BitOps.btr_reg_imm8 r i
perform (Call.btc_reg_imm8 r i) = BitOps.btc_reg_imm8 r i
perform (Call.andn_reg_reg r1 r2 r3) = Vex.andn_reg_reg r1 r2 r3
perform (Call.bzhi_reg_reg r1 r2 r3) = Vex.bzhi_reg_reg r1 r2 r3
perform (Call.shlx_reg_reg r1 r2 r3) = Vex.shlx_reg_reg r1 r2 r3
perform (Call.shrx_reg_reg r1 r2 r3) = Vex.shrx_reg_reg r1 r2 r3
perform (Call.sarx_reg_reg r1 r2 r3) = Vex.sarx_reg_reg r1 r2 r3
perform (Call.rorx_reg_imm r1 r2 i) = Vex.rorx_reg_imm r1 r2 i
perform (Call.bextr_reg_reg r1 r2 r3) = Vex.bextr_reg_reg r1 r2 r3
perform (Call.blsi_reg_reg r1 r2) = Vex.blsi_reg_reg r1 r2
perform (Call.blsr_reg_reg r1 r2) = Vex.blsr_reg_reg r1 r2
perform (Call.blsmsk_reg_reg r1 r2) = Vex.blsmsk_reg_reg r1 r2
perform (Call.pext_reg_reg r1 r2 r3) = Vex.pext_reg_reg r1 r2 r3
perform (Call.pdep_reg_reg r1 r2 r3) = Vex.pdep_reg_reg r1 r2 r3
perform (Call.mulx_reg_reg r1 r2 r3) = Vex.mulx_reg_reg r1 r2 r3
perform Call.cld = System.cld
perform Call.std = System.std
perform (Call.raw_bytes bytes) = System.raw_bytes bytes
perform Call.hlt = System.hlt
perform Call.rdtsc = System.rdtsc
perform Call.cpuid = System.cpuid
perform Call.mfence = System.mfence
perform Call.lfence = System.lfence
perform Call.sfence = System.sfence
perform Call.cli = System.cli
perform Call.sti = System.sti
perform Call.in_al_dx = System.in_al_dx
perform Call.out_dx_al = System.out_dx_al
perform Call.rep_stosb = System.rep_stosb
perform Call.rep_movsb = System.rep_movsb
perform Call.lock_prefix = System.lock_prefix
perform Call.rep_prefix = System.rep_prefix
perform Call.clc = System.clc
perform Call.stc = System.stc
perform Call.cmc = System.cmc
perform Call.pause = System.pause
perform Call.cdq = System.cdq
perform Call.cdqe = System.cdqe
perform Call.pushfq = System.pushfq
perform Call.popfq = System.popfq
perform Call.rdtscp = System.rdtscp
perform Call.endbr64 = System.endbr64
perform Call.cbw = System.cbw
perform Call.cwde = System.cwde
perform Call.cwd = System.cwd
perform Call.nop_long = System.nop_long
perform Call.xgetbv = System.xgetbv
perform (Call.wrfsbase_reg r) = System.wrfsbase_reg r
perform (Call.wrgsbase_reg r) = System.wrgsbase_reg r
perform (Call.rdfsbase_reg r) = System.rdfsbase_reg r
perform (Call.rdgsbase_reg r) = System.rdgsbase_reg r
perform Call.wbinvd = System.wbinvd
perform Call.clts = System.clts
perform (Call.str_reg r) = System.str_reg r
perform (Call.sldt_reg r) = System.sldt_reg r
perform (Call.smsw_reg r) = System.smsw_reg r
perform Call.rdmsr = System.rdmsr
perform Call.wrmsr = System.wrmsr
perform Call.rdpmc = System.rdpmc
perform Call.swapgs = System.swapgs
perform Call.sysret = System.sysret
perform Call.sysenter = System.sysenter
perform Call.sysexit = System.sysexit
perform Call.iretq = System.iretq
perform (Call.cmpxchg16b_mem r i) = Disp8.cmpxchg16b_mem r i
perform (Call.prefetchw r i) = Disp8.prefetchw r i
perform (Call.prefetchnta r i) = Disp8.prefetchnta r i
perform (Call.clflush r i) = Disp8.clflush r i
perform (Call.stmxcsr_mem r i) = Disp8.stmxcsr_mem r i
perform (Call.ldmxcsr_mem r i) = Disp8.ldmxcsr_mem r i
perform (Call.fxsave_mem r i) = Disp8.fxsave_mem r i
perform (Call.fxrstor_mem r i) = Disp8.fxrstor_mem r i
perform (Call.lidt_mem r i) = Disp8.lidt_mem r i
perform (Call.lgdt_mem r i) = Disp8.lgdt_mem r i
perform (Call.cmov_reg_mem r1 r2 r3 i) = Disp8.cmov_reg_mem r1 r2 r3 i
perform (Call.movups_xmm_mem r1 r2 i) = Sse.movups_xmm_mem r1 r2 i
perform (Call.movups_mem_xmm r1 r2 i) = Sse.movups_mem_xmm r1 r2 i
perform (Call.addps r1 r2) = Sse.addps r1 r2
perform (Call.subps r1 r2) = Sse.subps r1 r2
perform (Call.mulps r1 r2) = Sse.mulps r1 r2
perform (Call.divps r1 r2) = Sse.divps r1 r2
perform (Call.vaddps r1 r2 index) = Avx.vaddps r1 r2 index
perform (Call.vsubps r1 r2 index) = Avx.vsubps r1 r2 index
perform (Call.vmulps r1 r2 index) = Avx.vmulps r1 r2 index
perform (Call.vdivps r1 r2 index) = Avx.vdivps r1 r2 index
perform (Call.vmovups_load r1 r2 i) = Avx.vmovups_load r1 r2 i
perform (Call.vmovups_store r1 r2 i) = Avx.vmovups_store r1 r2 i
perform (Call.vshufps r1 r2 i) = Avx.vshufps r1 r2 i
perform (Call.vbroadcastss r1 r2) = Avx.vbroadcastss r1 r2

unfoldable pub assemble : List Call → Asm (Unit {0})
unfolding perform ◌>>=◌
assemble [] = skip
assemble (c ∷ cs) = do perform c; assemble cs

-- ===== src/Codegen/Isa.antt =====
-- ACLM/codegen.py: the statements for single instructions, from `_emit`.
use aclmv.Prelude.{String, str_eq, true, [], ◌∷◌, if◌then◌else◌, lookup, has, Assoc}
use aclmv.Prelude.Int.{ℤ, pos}
use aclmv.Encoder.Call
use aclmv.Prelude.{◌==◌}
use aclmv.Ast.Stmt.{Stmt}
use aclmv.Ast.Isa
use aclmv.Codegen.{
  asm1, asm2, asm3, no_attribute, pure, unsupported_node, Gen, ◌>>=◌, raise, asm, when, on_option,
  data_label,
}

-- `getattr(self.asm, name)`, for the names that the parser produces.
abbrev pub flag_calls : Assoc Call.Call
flag_calls =
    ("clc", Call.clc)
    ∷ ("stc", Call.stc)
    ∷ ("cmc", Call.cmc)
    ∷ ("cld", Call.cld)
    ∷ ("std", Call.std)
    ∷ ("pause", Call.pause)
    ∷ ("cqo", Call.cqo)
    ∷ ("cdq", Call.cdq)
    ∷ ("leave", Call.leave)
    ∷ ("cdqe", Call.cdqe)
    ∷ ("pushfq", Call.pushfq)
    ∷ ("popfq", Call.popfq)
    ∷ ("rdtscp", Call.rdtscp)
    ∷ ("lfence", Call.lfence)
    ∷ ("sfence", Call.sfence)
    ∷ ("mfence", Call.mfence)
    ∷ ("endbr64", Call.endbr64)
    ∷ ("cbw", Call.cbw)
    ∷ ("cwde", Call.cwde)
    ∷ ("cwd", Call.cwd)
    ∷ []

abbrev pub fs_gs_calls : Assoc (String → Call.Call)
fs_gs_calls =
    ("rdfsbase", Call.rdfsbase_reg)
    ∷ ("rdgsbase", Call.rdgsbase_reg)
    ∷ ("wrfsbase", Call.wrfsbase_reg)
    ∷ ("wrgsbase", Call.wrgsbase_reg)
    ∷ []

abbrev pub bit_imm_calls : Assoc (String → ℤ → Call.Call)
bit_imm_calls =
    ("bt", Call.bt_reg_imm8)
    ∷ ("bts", Call.bts_reg_imm8)
    ∷ ("btr", Call.btr_reg_imm8)
    ∷ ("btc", Call.btc_reg_imm8)
    ∷ []

abbrev pub bit_calls : Assoc (String → String → Call.Call)
bit_calls = ("bts", Call.bts_reg_reg) ∷ ("btr", Call.btr_reg_reg) ∷ ("btc", Call.btc_reg_reg) ∷ []

abbrev pub priv_reg_calls : Assoc (String → Call.Call)
priv_reg_calls = ("sldt", Call.sldt_reg) ∷ ("str", Call.str_reg) ∷ ("smsw", Call.smsw_reg) ∷ []

abbrev pub priv_calls : Assoc Call.Call
priv_calls =
    ("swapgs", Call.swapgs)
    ∷ ("rdmsr", Call.rdmsr)
    ∷ ("wrmsr", Call.wrmsr)
    ∷ ("rdpmc", Call.rdpmc)
    ∷ ("clts", Call.clts)
    ∷ ("wbinvd", Call.wbinvd)
    ∷ ("sysret", Call.sysret)
    ∷ ("sysenter", Call.sysenter)
    ∷ ("sysexit", Call.sysexit)
    ∷ []

unfoldable pub method : {A : Type 0} → Assoc A → String → Gen A
method table name = on_option (lookup name table) (λ f. pure f) (raise (no_attribute name))

abbrev pub by_name : Assoc Call.Call → String → Gen (Unit {0})
by_name table op = do c ← method table op; asm c

abbrev pub by_name1 : Assoc (String → Call.Call) → String → String → Gen (Unit {0})
by_name1 table op r = do f ← method table op; asm1 f r

abbrev pub priv_op : Isa.CpuPrivOp → Gen (Unit {0})
priv_op s =
    if has s.op priv_reg_calls then by_name1 priv_reg_calls s.op s.reg else by_name priv_calls s.op

abbrev pub bit_imm : Isa.CpuBitImm → Gen (Unit {0})
bit_imm s = do f ← method bit_imm_calls s.op; asm1 (λ b. f b s.imm) s.base

abbrev pub bit_op : Isa.CpuBitOp → Gen (Unit {0})
bit_op s = do f ← method bit_calls s.op; asm2 f s.base s.offset

abbrev pub prefixed : Isa.PrefixedOp → Gen (Unit {0})
prefixed s =
    if str_eq s.prefix "lock"
    then asm Call.lock_prefix
    else when (str_eq s.prefix "rep") (asm Call.rep_prefix)

unfoldable pub emit_isa : Stmt → Gen (Unit {0})
unfolding method
emit_isa (Stmt.flag_setcc s) = asm1 (λ d. Call.setcc_reg s.cond d) s.dest
emit_isa Stmt.flags_clear = asm Call.cld
emit_isa Stmt.flags_set_df = asm Call.std
emit_isa (Stmt.cpu_xchg s) = asm2 Call.xchg_reg_reg s.a s.b
emit_isa (Stmt.cpu_xadd s) = asm2 Call.xadd_reg_reg s.dest s.src
emit_isa (Stmt.cpu_lea_rip s) = asm1 (λ d. Call.lea_reg_label d (data_label s.label)) s.dest
emit_isa (Stmt.cpu_lea_abs s) = asm1 (λ d. Call.mov_reg_imm64 d s.addr) s.dest
emit_isa (Stmt.cpu_imul3 s) = asm2 (λ d r. Call.imul_reg_reg_imm d r s.imm) s.dest s.src
emit_isa (Stmt.cpu_mxcsr s) =
    asm1 (λ b. if str_eq s.op "ld" then Call.ldmxcsr_mem b (pos 0) else Call.stmxcsr_mem b (pos 0))
      s.base
emit_isa (Stmt.cpu_fx s) =
    asm1 (λ b. if str_eq s.op "save" then Call.fxsave_mem b (pos 0) else Call.fxrstor_mem b (pos 0))
      s.base
emit_isa Stmt.cpu_xgetbv = asm Call.xgetbv
emit_isa (Stmt.cpu_fs_gs s) = by_name1 fs_gs_calls s.op s.reg
emit_isa (Stmt.cpu_priv_op s) = priv_op s
emit_isa (Stmt.cpu_movzx s) =
    asm2 (if s.width == 16 then Call.movzx_r64_r16 else Call.movzx_r64_r8) s.dest s.src
emit_isa (Stmt.cpu_movsx s) =
    asm2 (if s.width == 16 then Call.movsx_r64_r16 else Call.movsx_r64_r8) s.dest s.src
emit_isa (Stmt.cpu_bit_imm s) = bit_imm s
emit_isa (Stmt.cpu_shld_imm s) = asm2 (λ d r. Call.shld_reg_imm8 d r s.imm) s.dest s.src
emit_isa (Stmt.cpu_shrd_imm s) = asm2 (λ d r. Call.shrd_reg_imm8 d r s.imm) s.dest s.src
emit_isa Stmt.cpu_nop_long = asm Call.nop_long
emit_isa (Stmt.cpu_enter s) = asm (Call.enter_imm s.size s.nesting)
emit_isa (Stmt.cpu_pext s) = asm3 Call.pext_reg_reg s.dest s.src s.mask
emit_isa (Stmt.cpu_pdep s) = asm3 Call.pdep_reg_reg s.dest s.src s.mask
emit_isa (Stmt.cpu_mulx s) = asm3 Call.mulx_reg_reg s.dest_hi s.dest_lo s.src
emit_isa (Stmt.cpu_cmpxchg s) = asm2 Call.cmpxchg_reg_reg s.dest s.src
emit_isa (Stmt.cpu_prefetch s) =
    asm1 (λ b. if str_eq s.kind "w" then Call.prefetchw b (pos 0) else Call.prefetchnta b (pos 0))
      s.base
emit_isa (Stmt.cpu_clflush s) = asm1 (λ b. Call.clflush b (pos 0)) s.base
emit_isa (Stmt.cpu_shlx s) = asm3 Call.shlx_reg_reg s.dest s.src s.cnt
emit_isa (Stmt.cpu_shrx s) = asm3 Call.shrx_reg_reg s.dest s.src s.cnt
emit_isa (Stmt.cpu_sarx s) = asm3 Call.sarx_reg_reg s.dest s.src s.cnt
emit_isa (Stmt.cpu_rorx s) = asm2 (λ d r. Call.rorx_reg_imm d r s.imm) s.dest s.src
emit_isa (Stmt.cpu_bextr s) = asm3 Call.bextr_reg_reg s.dest s.src s.ctrl
emit_isa (Stmt.cpu_blsi s) = asm2 Call.blsi_reg_reg s.dest s.src
emit_isa (Stmt.cpu_blsr s) = asm2 Call.blsr_reg_reg s.dest s.src
emit_isa (Stmt.cpu_blsmsk s) = asm2 Call.blsmsk_reg_reg s.dest s.src
emit_isa (Stmt.cpu_adcx s) = asm2 Call.adcx_reg_reg s.dest s.src
emit_isa (Stmt.cpu_adox s) = asm2 Call.adox_reg_reg s.dest s.src
emit_isa (Stmt.cpu_crc32 s) = asm2 Call.crc32_reg_reg s.dest s.src
emit_isa (Stmt.cpu_rdrand s) = asm1 Call.rdrand_reg s.dest
emit_isa (Stmt.cpu_rdseed s) = asm1 Call.rdseed_reg s.dest
emit_isa (Stmt.cpu_movsxd s) = asm2 Call.movsxd_reg_reg s.dest s.src
emit_isa (Stmt.cpu_adc s) = asm2 Call.adc_reg_reg s.dest s.src
emit_isa (Stmt.cpu_sbb s) = asm2 Call.sbb_reg_reg s.dest s.src
emit_isa (Stmt.cpu_bswap s) = asm1 Call.bswap_reg s.dest
emit_isa (Stmt.cpu_flag_op s) = by_name flag_calls s.op
emit_isa (Stmt.cpu_mul_div1 s) =
    asm1 (if str_eq s.op "mul" then Call.mul_reg else Call.div_reg) s.src
emit_isa (Stmt.cpu_test_imm s) = asm1 (λ d. Call.test_reg_imm32 d s.imm) s.dest
emit_isa (Stmt.cpu_bit_op s) = bit_op s
emit_isa (Stmt.cpu_popcnt s) = asm2 Call.popcnt_reg_reg s.dest s.src
emit_isa (Stmt.cpu_lzcnt s) = asm2 Call.lzcnt_reg_reg s.dest s.src
emit_isa (Stmt.cpu_tzcnt s) = asm2 Call.tzcnt_reg_reg s.dest s.src
emit_isa (Stmt.cpu_shld s) = asm2 (λ d r. Call.shld_reg_reg d r true) s.dest s.src
emit_isa (Stmt.cpu_shrd s) = asm2 Call.shrd_reg_reg s.dest s.src
emit_isa (Stmt.cpu_imul_imm s) = asm1 (λ d. Call.imul_reg_imm d s.imm) s.dest
emit_isa (Stmt.cpu_andn s) = asm3 Call.andn_reg_reg s.dest s.src1 s.src2
emit_isa (Stmt.cpu_bzhi s) = asm3 Call.bzhi_reg_reg s.dest s.src s.ctrl
emit_isa (Stmt.prefixed_op s) = prefixed s
emit_isa _ = raise unsupported_node

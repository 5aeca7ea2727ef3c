-- ===== src/Encoder/Call.antt =====
-- The calls of the encoder's methods.
use aclmv.Prelude.{ℕ, String, Option, List, Bool}
use aclmv.Prelude.Int.{ℤ}

-- A call of a method of `Assembler`, with its arguments. `label_here` is `label`.
pub data Call : Type 0 where
  label_here : String → Call
  setcc_reg : String → String → Call
  jmp : String → Call
  jcc : String → String → Call
  call : String → Call
  ret : Call
  leave : Call
  push_reg : String → Call
  pop_reg : String → Call
  syscall : Call
  nop : Call
  cmov_reg_reg : String → String → String → Call
  call_reg : String → Call
  int_imm : ℤ → Call
  enter_imm : ℤ → ℤ → Call
  lea_reg_label : String → String → Call
  mov_reg_imm64 : String → ℤ → Call
  mov_reg_reg : String → String → Call
  xchg_reg_reg : String → String → Call
  mov_reg_mem : String → String → ℤ → Option String → ℕ → Call
  mov_mem_reg : String → ℤ → String → Option String → ℕ → Call
  mov8_reg_mem : String → String → ℤ → Option String → ℕ → Call
  mov16_reg_mem : String → String → ℤ → Option String → ℕ → Call
  mov32_reg_mem : String → String → ℤ → Option String → ℕ → Call
  mov8_mem_reg : String → ℤ → String → Option String → ℕ → Call
  mov16_mem_reg : String → ℤ → String → Option String → ℕ → Call
  mov32_mem_reg : String → ℤ → String → Option String → ℕ → Call
  lea_reg_mem : String → String → ℤ → Option String → ℕ → Call
  lock_cmpxchg_mem : String → ℤ → String → Call
  add_reg_reg : String → String → Call
  sub_reg_reg : String → String → Call
  and_reg_reg : String → String → Call
  or_reg_reg : String → String → Call
  xor_reg_reg : String → String → Call
  cmp_reg_reg : String → String → Call
  test_reg_reg : String → String → Call
  adc_reg_reg : String → String → Call
  sbb_reg_reg : String → String → Call
  add_reg_imm : String → ℤ → Call
  sub_reg_imm : String → ℤ → Call
  and_reg_imm : String → ℤ → Call
  or_reg_imm : String → ℤ → Call
  imul_reg_reg : String → String → Call
  idiv_reg : String → Call
  cqo : Call
  not_reg : String → Call
  neg_reg : String → Call
  inc_reg : String → Call
  dec_reg : String → Call
  mul_reg : String → Call
  div_reg : String → Call
  test_reg_imm32 : String → ℤ → Call
  imul_reg_imm : String → ℤ → Call
  imul_reg_reg_imm : String → String → ℤ → Call
  xadd_reg_reg : String → String → Call
  bswap_reg : String → Call
  shl_reg_imm8 : String → ℤ → Call
  shr_reg_imm8 : String → ℤ → Call
  rol_reg_imm8 : String → ℤ → Call
  ror_reg_imm8 : String → ℤ → Call
  shl_reg_cl : String → Call
  shr_reg_cl : String → Call
  rol_reg_cl : String → Call
  ror_reg_cl : String → Call
  sar_reg_imm8 : String → ℤ → Call
  sar_reg_cl : String → Call
  rcl_reg_imm8 : String → ℤ → Call
  rcr_reg_imm8 : String → ℤ → Call
  rcl_reg_cl : String → Call
  rcr_reg_cl : String → Call
  sal_reg_imm8 : String → ℤ → Call
  sal_reg_cl : String → Call
  shld_reg_reg : String → String → Bool → Call
  shrd_reg_reg : String → String → Call
  shld_reg_imm8 : String → String → ℤ → Call
  shrd_reg_imm8 : String → String → ℤ → Call
  movzx_reg_reg : String → String → ℕ → Call
  movsx_reg_reg : String → String → ℕ → Call
  bsf_reg_reg : String → String → Call
  bsr_reg_reg : String → String → Call
  bt_reg_reg : String → String → Call
  bts_reg_reg : String → String → Call
  btr_reg_reg : String → String → Call
  btc_reg_reg : String → String → Call
  popcnt_reg_reg : String → String → Call
  lzcnt_reg_reg : String → String → Call
  tzcnt_reg_reg : String → String → Call
  movsxd_reg_reg : String → String → Call
  adcx_reg_reg : String → String → Call
  adox_reg_reg : String → String → Call
  crc32_reg_reg : String → String → Call
  rdrand_reg : String → Call
  rdseed_reg : String → Call
  cmpxchg_reg_reg : String → String → Call
  movzx_r64_r8 : String → String → Call
  movzx_r64_r16 : String → String → Call
  movsx_r64_r8 : String → String → Call
  movsx_r64_r16 : String → String → Call
  bt_reg_imm8 : String → ℤ → Call
  bts_reg_imm8 : String → ℤ → Call
  btr_reg_imm8 : String → ℤ → Call
  btc_reg_imm8 : String → ℤ → Call
  andn_reg_reg : String → String → String → Call
  bzhi_reg_reg : String → String → String → Call
  shlx_reg_reg : String → String → String → Call
  shrx_reg_reg : String → String → String → Call
  sarx_reg_reg : String → String → String → Call
  rorx_reg_imm : String → String → ℤ → Call
  bextr_reg_reg : String → String → String → Call
  blsi_reg_reg : String → String → Call
  blsr_reg_reg : String → String → Call
  blsmsk_reg_reg : String → String → Call
  pext_reg_reg : String → String → String → Call
  pdep_reg_reg : String → String → String → Call
  mulx_reg_reg : String → String → String → Call
  cld : Call
  std : Call
  raw_bytes : List ℕ → Call
  hlt : Call
  rdtsc : Call
  cpuid : Call
  mfence : Call
  lfence : Call
  sfence : Call
  cli : Call
  sti : Call
  in_al_dx : Call
  out_dx_al : Call
  rep_stosb : Call
  rep_movsb : Call
  lock_prefix : Call
  rep_prefix : Call
  clc : Call
  stc : Call
  cmc : Call
  pause : Call
  cdq : Call
  cdqe : Call
  pushfq : Call
  popfq : Call
  rdtscp : Call
  endbr64 : Call
  cbw : Call
  cwde : Call
  cwd : Call
  nop_long : Call
  xgetbv : Call
  wrfsbase_reg : String → Call
  wrgsbase_reg : String → Call
  rdfsbase_reg : String → Call
  rdgsbase_reg : String → Call
  wbinvd : Call
  clts : Call
  str_reg : String → Call
  sldt_reg : String → Call
  smsw_reg : String → Call
  rdmsr : Call
  wrmsr : Call
  rdpmc : Call
  swapgs : Call
  sysret : Call
  sysenter : Call
  sysexit : Call
  iretq : Call
  cmpxchg16b_mem : String → ℤ → Call
  prefetchw : String → ℤ → Call
  prefetchnta : String → ℤ → Call
  clflush : String → ℤ → Call
  stmxcsr_mem : String → ℤ → Call
  ldmxcsr_mem : String → ℤ → Call
  fxsave_mem : String → ℤ → Call
  fxrstor_mem : String → ℤ → Call
  lidt_mem : String → ℤ → Call
  lgdt_mem : String → ℤ → Call
  cmov_reg_mem : String → String → String → ℤ → Call
  movups_xmm_mem : String → String → ℤ → Call
  movups_mem_xmm : String → String → ℤ → Call
  addps : String → String → Call
  subps : String → String → Call
  mulps : String → String → Call
  divps : String → String → Call
  vaddps : String → String → Option String → Call
  vsubps : String → String → Option String → Call
  vmulps : String → String → Option String → Call
  vdivps : String → String → Option String → Call
  vmovups_load : String → String → ℤ → Call
  vmovups_store : String → String → ℤ → Call
  vshufps : String → String → ℤ → Call
  vbroadcastss : String → String → Call

-- ===== src/Codegen/Traced/Emit.antt =====
-- Which statements push and pop in balance.
use aclmv.Prelude.{ℕ, ◌≡◌, refl, Bool, true, false}
use aclmv.Ast.Stmt.{Stmt}
use aclmv.Codegen.Traced.Operands.{Traced-asm1, Traced-asm2, Traced-asm3}
use aclmv.Codegen.Emit.{emit_stmt}
use aclmv.Codegen.Traced.{
  Traced, Traced-skip, Traced-set, Traced-bind, Traced-asm, Traced-resolve_name, Traced-raise,
}
use aclmv.Prelude.{str_eq, ◌==◌}
use aclmv.Encoder.Call
use aclmv.Codegen.Isa as Instructions
use aclmv.Codegen.Traced.{traced_rules}
use aclmv.Codegen.Traced.Isa.{
  calls-depth, methods-depth, methods2-depth, Traced-priv_op, Traced-bit_imm, Traced-bit_op,
  Traced-fs_gs,
}
use aclmv.Codegen.Traced.Basic.{
  Traced-assert_bytes, Traced-assert_size, Traced-chip_id, Traced-chip_ticks, Traced-cmp,
  Traced-cpu_bit_scan, Traced-cpu_bt, Traced-cpu_cmov, Traced-cpu_cmov_mem, Traced-cpu_cmpxchg16b,
  Traced-err_status, Traced-gate_fence, Traced-port_in, Traced-port_out, Traced-raw_bytes,
  Traced-sig_return, Traced-trap_neg, Traced-vec_bin, Traced-vec_vbin, Traced-vec_vload,
  Traced-vec_vstore,
}
use aclmv.Codegen.Traced.Arith.{Traced-cpu_bin, Traced-cpu_unary}
use aclmv.Codegen.Traced.Memory.{
  Traced-cpu_lea, Traced-cpu_movext, Traced-cpu_test, Traced-mem_load, Traced-mem_store,
  Traced-vec_load, Traced-vec_store,
}
use aclmv.Codegen.Traced.Functions.{Traced-call, Traced-syscall}
use aclmv.Codegen.Traced.Blocks.{
  Traced-blast_copy, Traced-blast_fill, Traced-blast_rep_copy, Traced-blast_rep_fill,
}
use aclmv.Codegen.Traced.Wire.{Traced-wire_cmp, Traced-wire_copy, Traced-wire_emit, Traced-wire_len}
use aclmv.Codegen.Traced.Cells.{
  Traced-cell_free, Traced-cell_map, Traced-cell_mapfile, Traced-cell_protect, Traced-pulse_now,
  Traced-pulse_sleep,
}
use aclmv.Codegen.Traced.Locks.{Traced-gate_cas, Traced-gate_spin}
use aclmv.Codegen.Traced.Threads.{
  Traced-thread_exit, Traced-thread_join, Traced-thread_join_all, Traced-thread_spawn,
}
use aclmv.Codegen.Traced.Net.{
  Traced-net_close, Traced-net_connect, Traced-net_epoll_create, Traced-net_epoll_ctl,
  Traced-net_epoll_wait, Traced-net_poll, Traced-net_recv, Traced-net_send, Traced-net_socket,
}
use aclmv.Codegen.Traced.Signals.{Traced-sig_action}
use aclmv.Codegen.Traced.Kernel.Serial.{
  Traced-kbd_poll, Traced-kernel_panic, Traced-kernel_printk_str, Traced-pic_remap, Traced-pit_init,
  Traced-serial_init, Traced-serial_putc,
}
use aclmv.Codegen.Traced.Kernel.Heap.{
  Traced-kernel_cs_ring, Traced-kernel_heap_alloc, Traced-kernel_heap_init, Traced-kernel_net_allow,
  Traced-kernel_net_check, Traced-kernel_net_init, Traced-kernel_net_poll, Traced-kernel_nic_bar,
  Traced-kernel_nic_read, Traced-kernel_nic_write, Traced-kernel_preempt_arm,
}
use aclmv.Codegen.Traced.Kernel.Context.{
  Traced-kernel_coop_switch, Traced-kernel_ctx_load, Traced-kernel_ctx_save,
}
use aclmv.Codegen.Traced.Kernel.Interrupts.{
  Traced-kernel_idt_install, Traced-kernel_irq_full_save_on, Traced-kernel_nmi_install,
  Traced-kernel_pf_install, Traced-kernel_tick_install, Traced-kernel_tick_read,
}
use aclmv.Codegen.Traced.Kernel.Ramfs.{
  Traced-kernel_ramfs_get, Traced-kernel_ramfs_init, Traced-kernel_ramfs_put,
}
use aclmv.Codegen.Traced.Kernel.Syscalls.{
  Traced-kernel_syscall_init, Traced-kernel_syscall_register, Traced-kernel_syscall_table_init,
}
use aclmv.Codegen.Traced.Kernel.Dma.{
  Traced-kernel_dma_ring_init, Traced-kernel_dma_ring_pop, Traced-kernel_dma_ring_push,
}

-- All but the statements that are there to move the stack: push and pop, returns, functions, the entry into user
-- mode, and the classes of pushfq, popfq, enter and leave.
abbrev pub is_balanced : Stmt → Bool
is_balanced (Stmt.stack_push _) = false
is_balanced (Stmt.stack_pop _) = false
is_balanced Stmt.ret = false
is_balanced (Stmt.ret_val _) = false
is_balanced (Stmt.kernel_enter_user _) = false
is_balanced (Stmt.fn_def _ _ _ _) = false
is_balanced (Stmt.cpu_flag_op _) = false
is_balanced (Stmt.cpu_enter _) = false
is_balanced _ = true

-- Whenever the code generator returns from such a statement, the calls of the encoder's methods that it has made
-- have pushes and pops that balance: from every depth of the stack they come back to it, and they never pop below
-- it. These calls, in order, are what has happened to the assembler.
pub Traced-emit_stmt : {d : ℕ} (s : Stmt) → is_balanced s ≡ true → Traced d (emit_stmt s) d
unfolding emit_stmt Instructions.emit_isa
Traced-emit_stmt (Stmt.label s) h = Traced-asm _ refl
Traced-emit_stmt (Stmt.goto s) h = Traced-asm _ refl
Traced-emit_stmt (Stmt.jump_if s) h = Traced-asm _ refl
Traced-emit_stmt (Stmt.cmp s) h = Traced-cmp s
Traced-emit_stmt (Stmt.cpu_bin s) h = Traced-cpu_bin s
Traced-emit_stmt (Stmt.cpu_unary s) h = Traced-cpu_unary s
Traced-emit_stmt (Stmt.data_alloc s) h = Traced-skip
Traced-emit_stmt (Stmt.data_const s) h = Traced-skip
Traced-emit_stmt (Stmt.mem_load s) h = Traced-mem_load s
Traced-emit_stmt (Stmt.mem_store s) h = Traced-mem_store s
Traced-emit_stmt (Stmt.sys_call s) h = Traced-syscall s
Traced-emit_stmt (Stmt.call s) h = Traced-call s
Traced-emit_stmt Stmt.ret h = absurd (cc h)
Traced-emit_stmt (Stmt.stack_push s) h = absurd (cc h)
Traced-emit_stmt (Stmt.stack_pop s) h = absurd (cc h)
Traced-emit_stmt (Stmt.blast_fill s) h = Traced-blast_fill s
Traced-emit_stmt (Stmt.blast_copy s) h = Traced-blast_copy s
Traced-emit_stmt (Stmt.wire_len s) h = Traced-wire_len s
Traced-emit_stmt (Stmt.wire_cmp s) h = Traced-wire_cmp s
Traced-emit_stmt (Stmt.wire_copy s) h = Traced-wire_copy s
Traced-emit_stmt (Stmt.wire_emit s) h = Traced-wire_emit s
Traced-emit_stmt (Stmt.trap_neg s) h = Traced-trap_neg s
Traced-emit_stmt (Stmt.cell_map s) h = Traced-cell_map s
Traced-emit_stmt (Stmt.cell_free s) h = Traced-cell_free s
Traced-emit_stmt (Stmt.gate_cas s) h = Traced-gate_cas s
Traced-emit_stmt (Stmt.gate_spin s) h = Traced-gate_spin s
Traced-emit_stmt (Stmt.pulse_sleep s) h = Traced-pulse_sleep s
Traced-emit_stmt (Stmt.pulse_now s) h = Traced-pulse_now s
Traced-emit_stmt (Stmt.flag_setcc s) h = Traced-asm1 _ _ λ _. refl
Traced-emit_stmt (Stmt.chip_ticks s) h = Traced-chip_ticks s
Traced-emit_stmt (Stmt.chip_id s) h = Traced-chip_id s
Traced-emit_stmt Stmt.chip_cli h = Traced-asm _ refl
Traced-emit_stmt Stmt.chip_sti h = Traced-asm _ refl
Traced-emit_stmt Stmt.chip_halt h = Traced-asm _ refl
Traced-emit_stmt (Stmt.gate_fence s) h = Traced-gate_fence s
Traced-emit_stmt (Stmt.port_out s) h = Traced-port_out s
Traced-emit_stmt (Stmt.port_in s) h = Traced-port_in s
Traced-emit_stmt (Stmt.vec_load s) h = Traced-vec_load s
Traced-emit_stmt (Stmt.vec_store s) h = Traced-vec_store s
Traced-emit_stmt (Stmt.vec_bin s) h = Traced-vec_bin s
Traced-emit_stmt (Stmt.cpu_lea s) h = Traced-cpu_lea s
Traced-emit_stmt (Stmt.sys_raw s) h = Traced-raise _
Traced-emit_stmt (Stmt.raw_bytes s) h = Traced-raw_bytes s
Traced-emit_stmt (Stmt.cpu_test s) h = Traced-cpu_test s
Traced-emit_stmt (Stmt.cpu_cmov s) h = Traced-cpu_cmov s
Traced-emit_stmt (Stmt.include s) h = Traced-skip
Traced-emit_stmt (Stmt.thread_spawn s) h = Traced-thread_spawn s
Traced-emit_stmt (Stmt.thread_join s) h = Traced-thread_join
Traced-emit_stmt (Stmt.thread_exit s) h = Traced-thread_exit s
Traced-emit_stmt (Stmt.vec_vbin s) h = Traced-vec_vbin s
Traced-emit_stmt (Stmt.vec_vload s) h = Traced-vec_vload s
Traced-emit_stmt (Stmt.vec_vstore s) h = Traced-vec_vstore s
Traced-emit_stmt (Stmt.err_status s) h = Traced-err_status s
Traced-emit_stmt (Stmt.cpu_xchg s) h = Traced-asm2 _ _ _ λ _ _. refl
Traced-emit_stmt (Stmt.cpu_xadd s) h = Traced-asm2 _ _ _ λ _ _. refl
Traced-emit_stmt (Stmt.cpu_bit_scan s) h = Traced-cpu_bit_scan s
Traced-emit_stmt (Stmt.cpu_bt s) h = Traced-cpu_bt s
Traced-emit_stmt (Stmt.blast_rep_fill s) h = Traced-blast_rep_fill s
Traced-emit_stmt (Stmt.blast_rep_copy s) h = Traced-blast_rep_copy s
Traced-emit_stmt (Stmt.net_socket s) h = Traced-net_socket s
Traced-emit_stmt (Stmt.net_connect s) h = Traced-net_connect s
Traced-emit_stmt (Stmt.net_send s) h = Traced-net_send s
Traced-emit_stmt (Stmt.net_recv s) h = Traced-net_recv s
Traced-emit_stmt (Stmt.net_close s) h = Traced-net_close s
Traced-emit_stmt Stmt.target_baremetal h = Traced-set _ λ g. (refl, refl)
Traced-emit_stmt (Stmt.struct_def s) h = Traced-skip
Traced-emit_stmt (Stmt.fn_def n a b l) h = absurd (cc h)
Traced-emit_stmt (Stmt.local_decl s) h = Traced-skip
Traced-emit_stmt (Stmt.ret_val s) h = absurd (cc h)
Traced-emit_stmt (Stmt.cpu_mov_ext s) h = Traced-cpu_movext s
Traced-emit_stmt (Stmt.data_bytes s) h = Traced-skip
Traced-emit_stmt Stmt.flags_clear h = Traced-asm _ refl
Traced-emit_stmt Stmt.flags_set_df h = Traced-asm _ refl
Traced-emit_stmt Stmt.metal_regs h = Traced-skip
Traced-emit_stmt (Stmt.assert_bytes s) h = Traced-assert_bytes s
Traced-emit_stmt (Stmt.assert_size s) h = Traced-assert_size s
Traced-emit_stmt Stmt.metal_deterministic h = Traced-skip
Traced-emit_stmt (Stmt.cpu_lea_rip s) h = Traced-asm1 _ _ λ _. refl
Traced-emit_stmt (Stmt.cpu_lea_abs s) h = Traced-asm1 _ _ λ _. refl
Traced-emit_stmt (Stmt.data_align s) h = Traced-skip
Traced-emit_stmt (Stmt.section_at s) h = Traced-skip
Traced-emit_stmt (Stmt.cpu_shld s) h = Traced-asm2 _ _ _ λ _ _. refl
Traced-emit_stmt (Stmt.cpu_shrd s) h = Traced-asm2 _ _ _ λ _ _. refl
Traced-emit_stmt (Stmt.cpu_imul_imm s) h = Traced-asm1 _ _ λ _. refl
Traced-emit_stmt (Stmt.cpu_andn s) h = Traced-asm3 _ _ _ _ λ _ _ _. refl
Traced-emit_stmt (Stmt.cpu_bzhi s) h = Traced-asm3 _ _ _ _ λ _ _ _. refl
Traced-emit_stmt (Stmt.cpu_cmpxchg16b s) h = Traced-cpu_cmpxchg16b s
Traced-emit_stmt (Stmt.cpu_cmov_mem s) h = Traced-cpu_cmov_mem s
Traced-emit_stmt (Stmt.prefixed_op s) h = search (traced_rules, calls-depth) depth 20
Traced-emit_stmt (Stmt.cell_protect s) h = Traced-cell_protect s
Traced-emit_stmt (Stmt.sig_action s) h = Traced-sig_action s
Traced-emit_stmt Stmt.sig_return h = Traced-sig_return
Traced-emit_stmt (Stmt.cpu_adc s) h = Traced-asm2 _ _ _ λ _ _. refl
Traced-emit_stmt (Stmt.cpu_sbb s) h = Traced-asm2 _ _ _ λ _ _. refl
Traced-emit_stmt (Stmt.cpu_bswap s) h = Traced-asm1 _ _ λ _. refl
Traced-emit_stmt (Stmt.cpu_flag_op s) h = absurd (cc h)
Traced-emit_stmt (Stmt.cpu_mul_div1 s) h =
    Traced-bind (Traced-resolve_name _)
      λ r. Traced-asm _ (methods-depth (str_eq s.op "mul") Call.mul_reg Call.div_reg r refl refl)
Traced-emit_stmt (Stmt.cpu_test_imm s) h = Traced-asm1 _ _ λ _. refl
Traced-emit_stmt (Stmt.cpu_bit_op s) h = Traced-bit_op s
Traced-emit_stmt (Stmt.cpu_popcnt s) h = Traced-asm2 _ _ _ λ _ _. refl
Traced-emit_stmt (Stmt.cpu_lzcnt s) h = Traced-asm2 _ _ _ λ _ _. refl
Traced-emit_stmt (Stmt.cpu_tzcnt s) h = Traced-asm2 _ _ _ λ _ _. refl
Traced-emit_stmt (Stmt.cpu_movsxd s) h = Traced-asm2 _ _ _ λ _ _. refl
Traced-emit_stmt (Stmt.cpu_shlx s) h = Traced-asm3 _ _ _ _ λ _ _ _. refl
Traced-emit_stmt (Stmt.cpu_shrx s) h = Traced-asm3 _ _ _ _ λ _ _ _. refl
Traced-emit_stmt (Stmt.cpu_sarx s) h = Traced-asm3 _ _ _ _ λ _ _ _. refl
Traced-emit_stmt (Stmt.cpu_rorx s) h = Traced-asm2 _ _ _ λ _ _. refl
Traced-emit_stmt (Stmt.cpu_bextr s) h = Traced-asm3 _ _ _ _ λ _ _ _. refl
Traced-emit_stmt (Stmt.cpu_blsi s) h = Traced-asm2 _ _ _ λ _ _. refl
Traced-emit_stmt (Stmt.cpu_blsr s) h = Traced-asm2 _ _ _ λ _ _. refl
Traced-emit_stmt (Stmt.cpu_blsmsk s) h = Traced-asm2 _ _ _ λ _ _. refl
Traced-emit_stmt (Stmt.cpu_adcx s) h = Traced-asm2 _ _ _ λ _ _. refl
Traced-emit_stmt (Stmt.cpu_adox s) h = Traced-asm2 _ _ _ λ _ _. refl
Traced-emit_stmt (Stmt.cpu_crc32 s) h = Traced-asm2 _ _ _ λ _ _. refl
Traced-emit_stmt (Stmt.cpu_rdrand s) h = Traced-asm1 _ _ λ _. refl
Traced-emit_stmt (Stmt.cpu_rdseed s) h = Traced-asm1 _ _ λ _. refl
Traced-emit_stmt (Stmt.cpu_pext s) h = Traced-asm3 _ _ _ _ λ _ _ _. refl
Traced-emit_stmt (Stmt.cpu_pdep s) h = Traced-asm3 _ _ _ _ λ _ _ _. refl
Traced-emit_stmt (Stmt.cpu_mulx s) h = Traced-asm3 _ _ _ _ λ _ _ _. refl
Traced-emit_stmt (Stmt.cpu_cmpxchg s) h = Traced-asm2 _ _ _ λ _ _. refl
Traced-emit_stmt (Stmt.cpu_prefetch s) h = search (traced_rules, calls-depth) depth 20
Traced-emit_stmt (Stmt.cpu_clflush s) h = Traced-asm1 _ _ λ _. refl
Traced-emit_stmt (Stmt.cpu_movzx s) h = Traced-bind (Traced-resolve_name _) λ r.
    Traced-bind (Traced-resolve_name _) λ t.
      Traced-asm _
        (methods2-depth (s.width == 16) Call.movzx_r64_r16 Call.movzx_r64_r8 r t refl refl)
Traced-emit_stmt (Stmt.cpu_movsx s) h = Traced-bind (Traced-resolve_name _) λ r.
    Traced-bind (Traced-resolve_name _) λ t.
      Traced-asm _
        (methods2-depth (s.width == 16) Call.movsx_r64_r16 Call.movsx_r64_r8 r t refl refl)
Traced-emit_stmt (Stmt.cpu_bit_imm s) h = Traced-bit_imm s
Traced-emit_stmt (Stmt.cpu_shld_imm s) h = Traced-asm2 _ _ _ λ _ _. refl
Traced-emit_stmt (Stmt.cpu_shrd_imm s) h = Traced-asm2 _ _ _ λ _ _. refl
Traced-emit_stmt Stmt.cpu_nop_long h = Traced-asm _ refl
Traced-emit_stmt (Stmt.cpu_enter s) h = absurd (cc h)
Traced-emit_stmt (Stmt.cpu_imul3 s) h = Traced-asm2 _ _ _ λ _ _. refl
Traced-emit_stmt (Stmt.cpu_mxcsr s) h = search (traced_rules, calls-depth) depth 20
Traced-emit_stmt (Stmt.cpu_fx s) h = search (traced_rules, calls-depth) depth 20
Traced-emit_stmt Stmt.cpu_xgetbv h = Traced-asm _ refl
Traced-emit_stmt (Stmt.cpu_fs_gs s) h = Traced-fs_gs s
Traced-emit_stmt (Stmt.cpu_priv_op s) h = Traced-priv_op s
Traced-emit_stmt (Stmt.cell_map_file s) h = Traced-cell_mapfile s
Traced-emit_stmt Stmt.thread_join_all h = Traced-thread_join_all
Traced-emit_stmt (Stmt.net_poll s) h = Traced-net_poll s
Traced-emit_stmt (Stmt.net_epoll_create s) h = Traced-net_epoll_create s
Traced-emit_stmt (Stmt.net_epoll_ctl s) h = Traced-net_epoll_ctl s
Traced-emit_stmt (Stmt.net_epoll_wait s) h = Traced-net_epoll_wait s
Traced-emit_stmt Stmt.chip_serial_init h = Traced-serial_init
Traced-emit_stmt (Stmt.chip_serial_putc s) h = Traced-serial_putc s
Traced-emit_stmt (Stmt.chip_lidt s) h = Traced-asm1 _ _ λ _. refl
Traced-emit_stmt (Stmt.chip_lgdt s) h = Traced-asm1 _ _ λ _. refl
Traced-emit_stmt (Stmt.kernel_heap_init s) h = Traced-kernel_heap_init s
Traced-emit_stmt (Stmt.kernel_heap_alloc s) h = Traced-kernel_heap_alloc s
Traced-emit_stmt (Stmt.kernel_ctx_save s) h = Traced-kernel_ctx_save s
Traced-emit_stmt (Stmt.kernel_ctx_load s) h = Traced-kernel_ctx_load s
Traced-emit_stmt (Stmt.chip_kbd_poll s) h = Traced-kbd_poll s
Traced-emit_stmt (Stmt.chip_int s) h = Traced-asm _ refl
Traced-emit_stmt Stmt.kernel_idt_install h = Traced-kernel_idt_install
Traced-emit_stmt (Stmt.chip_pit_init s) h = Traced-pit_init s
Traced-emit_stmt Stmt.chip_pic_remap h = Traced-pic_remap
Traced-emit_stmt (Stmt.kernel_coop_switch s) h = Traced-kernel_coop_switch s
Traced-emit_stmt (Stmt.kernel_printk_str s) h = Traced-kernel_printk_str s
Traced-emit_stmt Stmt.kernel_panic h = Traced-kernel_panic
Traced-emit_stmt Stmt.kernel_tick_install h = Traced-kernel_tick_install
Traced-emit_stmt (Stmt.kernel_tick_read s) h = Traced-kernel_tick_read s
Traced-emit_stmt Stmt.kernel_ramfs_init h = Traced-kernel_ramfs_init
Traced-emit_stmt (Stmt.kernel_ramfs_put s) h = Traced-kernel_ramfs_put s
Traced-emit_stmt (Stmt.kernel_ramfs_get s) h = Traced-kernel_ramfs_get s
Traced-emit_stmt Stmt.kernel_net_init h = Traced-kernel_net_init
Traced-emit_stmt (Stmt.kernel_net_poll s) h = Traced-kernel_net_poll s
Traced-emit_stmt (Stmt.kernel_cs_ring s) h = Traced-kernel_cs_ring s
Traced-emit_stmt (Stmt.kernel_enter_user s) h = absurd (cc h)
Traced-emit_stmt Stmt.kernel_pf_install h = Traced-kernel_pf_install
Traced-emit_stmt (Stmt.kernel_net_allow_port s) h = Traced-kernel_net_allow s
Traced-emit_stmt (Stmt.kernel_net_check_port s) h = Traced-kernel_net_check s
Traced-emit_stmt (Stmt.kernel_preempt_arm s) h = Traced-kernel_preempt_arm s
Traced-emit_stmt Stmt.kernel_syscall_init h = Traced-kernel_syscall_init
Traced-emit_stmt Stmt.kernel_sysret h = Traced-asm _ refl
Traced-emit_stmt (Stmt.kernel_nic_bar s) h = Traced-kernel_nic_bar s
Traced-emit_stmt (Stmt.kernel_nic_reg_read s) h = Traced-kernel_nic_read s
Traced-emit_stmt (Stmt.kernel_nic_reg_write s) h = Traced-kernel_nic_write s
Traced-emit_stmt Stmt.kernel_irq_full_save h = Traced-kernel_irq_full_save_on
Traced-emit_stmt Stmt.kernel_syscall_table_init h = Traced-kernel_syscall_table_init
Traced-emit_stmt (Stmt.kernel_syscall_register s) h = Traced-kernel_syscall_register s
Traced-emit_stmt Stmt.kernel_nmi_install h = Traced-kernel_nmi_install
Traced-emit_stmt (Stmt.kernel_dma_ring_init s) h = Traced-kernel_dma_ring_init s
Traced-emit_stmt (Stmt.kernel_dma_ring_push s) h = Traced-kernel_dma_ring_push s
Traced-emit_stmt (Stmt.kernel_dma_ring_pop s) h = Traced-kernel_dma_ring_pop s

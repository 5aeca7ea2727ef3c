-- ===== src/Codegen/Emit.antt =====
-- ACLM/codegen.py: `_emit` and `_emit_fn`.
use aclmv.Prelude.{ℕ, true, ◌||◌, [], ◌∷◌, ◌++◌, if◌then◌else◌, length}
use aclmv.Prelude.Int.{pos}
use aclmv.Encoder.Call
use aclmv.Prelude.{◌==◌}
use aclmv.Ast.Stmt.{Stmt, Node, at, Nodes, nil, cons}
use aclmv.Codegen.Basic
use aclmv.Codegen.Arith
use aclmv.Codegen.Memory
use aclmv.Codegen.Functions
use aclmv.Codegen.Signals
use aclmv.Codegen.Isa
use aclmv.Codegen.Blocks
use aclmv.Codegen.Wire
use aclmv.Codegen.Cells
use aclmv.Codegen.Locks
use aclmv.Codegen.Net
use aclmv.Codegen.Threads
use aclmv.Codegen.Kernel.Serial
use aclmv.Codegen.Kernel.Heap
use aclmv.Codegen.Kernel.Context
use aclmv.Codegen.Kernel.Interrupts
use aclmv.Codegen.Kernel.Ramfs
use aclmv.Codegen.Kernel.Syscalls
use aclmv.Codegen.Kernel.Dma
use aclmv.Codegen.{asm1, Gen, ◌>>=◌, ◌>>◌, skip, set, asm, lbl}

-- Every statement but a function: the class decides. The single instructions are in `emit_isa`.
unfoldable pub emit_stmt : Stmt → Gen (Unit {0})
emit_stmt (Stmt.label s) = asm (Call.label_here (lbl s.name))
emit_stmt (Stmt.goto s) = asm (Call.jmp (lbl s.label))
emit_stmt (Stmt.jump_if s) = asm (Call.jcc s.cond (lbl s.label))
emit_stmt (Stmt.cmp s) = Basic.cmp s
emit_stmt (Stmt.cpu_bin s) = Arith.cpu_bin s
emit_stmt (Stmt.cpu_unary s) = Arith.cpu_unary s
emit_stmt (Stmt.data_alloc _) = skip
emit_stmt (Stmt.data_const _) = skip
emit_stmt (Stmt.mem_load s) = Memory.mem_load s
emit_stmt (Stmt.mem_store s) = Memory.mem_store s
emit_stmt (Stmt.sys_call s) = Functions.syscall s
emit_stmt (Stmt.call s) = Functions.call s
emit_stmt Stmt.ret = Functions.emit_ret
emit_stmt (Stmt.stack_push s) = Basic.stack_push s
emit_stmt (Stmt.stack_pop s) = asm1 Call.pop_reg s.dest
emit_stmt (Stmt.blast_fill s) = Blocks.blast_fill s
emit_stmt (Stmt.blast_copy s) = Blocks.blast_copy s
emit_stmt (Stmt.wire_len s) = Wire.wire_len s
emit_stmt (Stmt.wire_cmp s) = Wire.wire_cmp s
emit_stmt (Stmt.wire_copy s) = Wire.wire_copy s
emit_stmt (Stmt.wire_emit s) = Wire.wire_emit s
emit_stmt (Stmt.trap_neg s) = Basic.trap_neg s
emit_stmt (Stmt.cell_map s) = Cells.cell_map s
emit_stmt (Stmt.cell_free s) = Cells.cell_free s
emit_stmt (Stmt.gate_cas s) = Locks.gate_cas s
emit_stmt (Stmt.gate_spin s) = Locks.gate_spin s
emit_stmt (Stmt.pulse_sleep s) = Cells.pulse_sleep s
emit_stmt (Stmt.pulse_now s) = Cells.pulse_now s
emit_stmt (Stmt.chip_ticks s) = Basic.chip_ticks s
emit_stmt (Stmt.chip_id s) = Basic.chip_id s
emit_stmt Stmt.chip_cli = asm Call.cli
emit_stmt Stmt.chip_sti = asm Call.sti
emit_stmt Stmt.chip_halt = asm Call.hlt
emit_stmt (Stmt.gate_fence s) = Basic.gate_fence s
emit_stmt (Stmt.port_out s) = Basic.port_out s
emit_stmt (Stmt.port_in s) = Basic.port_in s
emit_stmt (Stmt.vec_load s) = Memory.vec_load s
emit_stmt (Stmt.vec_store s) = Memory.vec_store s
emit_stmt (Stmt.vec_bin s) = Basic.vec_bin s
emit_stmt (Stmt.cpu_lea s) = Memory.cpu_lea s
emit_stmt (Stmt.raw_bytes s) = Basic.raw_bytes s
emit_stmt (Stmt.cpu_test s) = Memory.cpu_test s
emit_stmt (Stmt.cpu_cmov s) = Basic.cpu_cmov s
emit_stmt (Stmt.include _) = skip
emit_stmt (Stmt.thread_spawn s) = Threads.thread_spawn s
emit_stmt (Stmt.thread_join _) = Threads.thread_join
emit_stmt (Stmt.thread_exit s) = Threads.thread_exit s
emit_stmt (Stmt.vec_vbin s) = Basic.vec_vbin s
emit_stmt (Stmt.vec_vload s) = Basic.vec_vload s
emit_stmt (Stmt.vec_vstore s) = Basic.vec_vstore s
emit_stmt (Stmt.err_status s) = Basic.err_status s
emit_stmt (Stmt.cpu_bit_scan s) = Basic.cpu_bit_scan s
emit_stmt (Stmt.cpu_bt s) = Basic.cpu_bt s
emit_stmt (Stmt.blast_rep_fill s) = Blocks.blast_rep_fill s
emit_stmt (Stmt.blast_rep_copy s) = Blocks.blast_rep_copy s
emit_stmt (Stmt.net_socket s) = Net.net_socket s
emit_stmt (Stmt.net_connect s) = Net.net_connect s
emit_stmt (Stmt.net_send s) = Net.net_send s
emit_stmt (Stmt.net_recv s) = Net.net_recv s
emit_stmt (Stmt.net_close s) = Net.net_close s
emit_stmt Stmt.target_baremetal = set λ g. record g { baremetal = true }
emit_stmt (Stmt.struct_def _) = skip
emit_stmt (Stmt.local_decl _) = skip
emit_stmt (Stmt.ret_val s) = Functions.ret_val s
emit_stmt (Stmt.cpu_mov_ext s) = Memory.cpu_movext s
emit_stmt (Stmt.data_bytes _) = skip
emit_stmt Stmt.metal_regs = skip
emit_stmt (Stmt.assert_bytes s) = Basic.assert_bytes s
emit_stmt (Stmt.assert_size s) = Basic.assert_size s
emit_stmt Stmt.metal_deterministic = skip
emit_stmt (Stmt.data_align _) = skip
emit_stmt (Stmt.section_at _) = skip
emit_stmt (Stmt.cpu_cmpxchg16b s) = Basic.cpu_cmpxchg16b s
emit_stmt (Stmt.cpu_cmov_mem s) = Basic.cpu_cmov_mem s
emit_stmt (Stmt.cell_protect s) = Cells.cell_protect s
emit_stmt (Stmt.sig_action s) = Signals.sig_action s
emit_stmt Stmt.sig_return = Basic.sig_return
emit_stmt (Stmt.cell_map_file s) = Cells.cell_mapfile s
emit_stmt Stmt.thread_join_all = Threads.thread_join_all
emit_stmt (Stmt.net_poll s) = Net.net_poll s
emit_stmt (Stmt.net_epoll_create s) = Net.net_epoll_create s
emit_stmt (Stmt.net_epoll_ctl s) = Net.net_epoll_ctl s
emit_stmt (Stmt.net_epoll_wait s) = Net.net_epoll_wait s
emit_stmt Stmt.chip_serial_init = Serial.serial_init
emit_stmt (Stmt.chip_serial_putc s) = Serial.serial_putc s
emit_stmt (Stmt.chip_lidt s) = asm1 (λ b. Call.lidt_mem b (pos 0)) s.base
emit_stmt (Stmt.chip_lgdt s) = asm1 (λ b. Call.lgdt_mem b (pos 0)) s.base
emit_stmt (Stmt.kernel_heap_init s) = Heap.kernel_heap_init s
emit_stmt (Stmt.kernel_heap_alloc s) = Heap.kernel_heap_alloc s
emit_stmt (Stmt.kernel_ctx_save s) = Context.kernel_ctx_save s
emit_stmt (Stmt.kernel_ctx_load s) = Context.kernel_ctx_load s
emit_stmt (Stmt.chip_kbd_poll s) = Serial.kbd_poll s
emit_stmt (Stmt.chip_int s) = asm (Call.int_imm s.vec)
emit_stmt Stmt.kernel_idt_install = Interrupts.kernel_idt_install
emit_stmt (Stmt.chip_pit_init s) = Serial.pit_init s
emit_stmt Stmt.chip_pic_remap = Serial.pic_remap
emit_stmt (Stmt.kernel_coop_switch s) = Context.kernel_coop_switch s
emit_stmt (Stmt.kernel_printk_str s) = Serial.kernel_printk_str s
emit_stmt Stmt.kernel_panic = Serial.kernel_panic
emit_stmt Stmt.kernel_tick_install = Interrupts.kernel_tick_install
emit_stmt (Stmt.kernel_tick_read s) = Interrupts.kernel_tick_read s
emit_stmt Stmt.kernel_ramfs_init = Ramfs.kernel_ramfs_init
emit_stmt (Stmt.kernel_ramfs_put s) = Ramfs.kernel_ramfs_put s
emit_stmt (Stmt.kernel_ramfs_get s) = Ramfs.kernel_ramfs_get s
emit_stmt Stmt.kernel_net_init = Heap.kernel_net_init
emit_stmt (Stmt.kernel_net_poll s) = Heap.kernel_net_poll s
emit_stmt (Stmt.kernel_cs_ring s) = Heap.kernel_cs_ring s
emit_stmt (Stmt.kernel_enter_user s) = Syscalls.kernel_enter_user s
emit_stmt Stmt.kernel_pf_install = Interrupts.kernel_pf_install
emit_stmt (Stmt.kernel_net_allow_port s) = Heap.kernel_net_allow s
emit_stmt (Stmt.kernel_net_check_port s) = Heap.kernel_net_check s
emit_stmt (Stmt.kernel_preempt_arm s) = Heap.kernel_preempt_arm s
emit_stmt Stmt.kernel_syscall_init = Syscalls.kernel_syscall_init
emit_stmt Stmt.kernel_sysret = asm Call.sysret
emit_stmt (Stmt.kernel_nic_bar s) = Heap.kernel_nic_bar s
emit_stmt (Stmt.kernel_nic_reg_read s) = Heap.kernel_nic_read s
emit_stmt (Stmt.kernel_nic_reg_write s) = Heap.kernel_nic_write s
emit_stmt Stmt.kernel_irq_full_save = Interrupts.kernel_irq_full_save_on
emit_stmt Stmt.kernel_syscall_table_init = Syscalls.kernel_syscall_table_init
emit_stmt (Stmt.kernel_syscall_register s) = Syscalls.kernel_syscall_register s
emit_stmt Stmt.kernel_nmi_install = Interrupts.kernel_nmi_install
emit_stmt (Stmt.kernel_dma_ring_init s) = Dma.kernel_dma_ring_init s
emit_stmt (Stmt.kernel_dma_ring_push s) = Dma.kernel_dma_ring_push s
emit_stmt (Stmt.kernel_dma_ring_pop s) = Dma.kernel_dma_ring_pop s
emit_stmt s = Isa.emit_isa s

-- The line and the length of the code before the statement. The map of the listing holds no class names.
unfoldable pub record_line : ℕ → Gen (Unit {0})
unfolding set
record_line line = set λ g.
    let g' =
      if line == 0
      then g
      else record g { line_entries = g.line_entries ++ ((length g.asm'.code, line) ∷ []) } in
    if g.emit_listing || g.teach_mode
    then record g' { teach_map = g'.teach_map ++ ((line, length g.asm'.code) ∷ []) }
    else g'

unfoldable mutual
  unfolding ◌>>=◌ emit_stmt record_line

  -- `_emit`
  pub emit : Node → Gen (Unit {0})
  emit (at line col (Stmt.fn_def name args body locals)) = do
    record_line line
    Functions.enter_fn name args locals
    emit_all body
    Functions.leave_fn
  emit (at line col s) = do record_line line; emit_stmt s

  pub emit_all : Nodes → Gen (Unit {0})
  emit_all nil = skip
  emit_all (cons n ns) = do emit n; emit_all ns

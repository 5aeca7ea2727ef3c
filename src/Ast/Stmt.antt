-- ===== src/Ast/Stmt.antt =====
-- ACLM/ast_nodes.py: the statements, each class a constructor, and programs.
use aclmv.Prelude.{ℕ, String, List}
use aclmv.Ast.Program
use aclmv.Ast.Cpu
use aclmv.Ast.System
use aclmv.Ast.Kernel
use aclmv.Ast.Isa

mutual
  -- A statement with its line and column.
  pub data Node : Type 0 where
    at : ℕ → ℕ → Stmt → Node

  pub data Stmt : Type 0 where
    label : Program.Label → Stmt
    goto : Program.Goto → Stmt
    jump_if : Program.JumpIf → Stmt
    cmp : Program.Cmp → Stmt
    cpu_bin : Cpu.CpuBin → Stmt
    cpu_unary : Cpu.CpuUnary → Stmt
    data_alloc : Program.DataAlloc → Stmt
    data_const : Program.DataConst → Stmt
    mem_load : Program.MemLoad → Stmt
    mem_store : Program.MemStore → Stmt
    sys_call : Program.SysCall → Stmt
    call : Program.Call → Stmt
    ret : Stmt
    stack_push : Program.StackPush → Stmt
    stack_pop : Program.StackPop → Stmt
    blast_fill : System.BlastFill → Stmt
    blast_copy : System.BlastCopy → Stmt
    wire_len : System.WireLen → Stmt
    wire_cmp : System.WireCmp → Stmt
    wire_copy : System.WireCopy → Stmt
    wire_emit : System.WireEmit → Stmt
    trap_neg : System.TrapNeg → Stmt
    cell_map : System.CellMap → Stmt
    cell_free : System.CellFree → Stmt
    gate_cas : System.GateCas → Stmt
    gate_spin : System.GateSpin → Stmt
    pulse_sleep : System.PulseSleep → Stmt
    pulse_now : System.PulseNow → Stmt
    flag_setcc : Program.FlagSetcc → Stmt
    chip_ticks : Kernel.ChipTicks → Stmt
    chip_id : Kernel.ChipId → Stmt
    chip_cli : Stmt
    chip_sti : Stmt
    chip_halt : Stmt
    gate_fence : System.GateFence → Stmt
    port_out : Kernel.PortOut → Stmt
    port_in : Kernel.PortIn → Stmt
    vec_load : System.VecLoad → Stmt
    vec_store : System.VecStore → Stmt
    vec_bin : System.VecBin → Stmt
    cpu_lea : Cpu.CpuLea → Stmt
    sys_raw : Program.SysRaw → Stmt
    raw_bytes : Program.RawBytes → Stmt
    cpu_test : Cpu.CpuTest → Stmt
    cpu_cmov : Cpu.CpuCmov → Stmt
    include : Program.Include → Stmt
    thread_spawn : System.ThreadSpawn → Stmt
    thread_join : System.ThreadJoin → Stmt
    thread_exit : System.ThreadExit → Stmt
    vec_vbin : System.VecVBin → Stmt
    vec_vload : System.VecVLoad → Stmt
    vec_vstore : System.VecVStore → Stmt
    err_status : System.ErrStatus → Stmt
    cpu_xchg : Cpu.CpuXchg → Stmt
    cpu_xadd : Cpu.CpuXadd → Stmt
    cpu_bit_scan : Cpu.CpuBitScan → Stmt
    cpu_bt : Cpu.CpuBt → Stmt
    blast_rep_fill : System.BlastRepFill → Stmt
    blast_rep_copy : System.BlastRepCopy → Stmt
    net_socket : System.NetSocket → Stmt
    net_connect : System.NetConnect → Stmt
    net_send : System.NetSend → Stmt
    net_recv : System.NetRecv → Stmt
    net_close : System.NetClose → Stmt
    target_baremetal : Stmt
    struct_def : Program.StructDef → Stmt
    -- FnDef: the name, the arguments, the body, the locals with their sizes.
    fn_def : String → List String → Nodes → List (String × ℕ) → Stmt
    local_decl : Program.LocalDecl → Stmt
    ret_val : Program.RetVal → Stmt
    cpu_mov_ext : Cpu.CpuMovExt → Stmt
    data_bytes : Program.DataBytes → Stmt
    flags_clear : Stmt
    flags_set_df : Stmt
    metal_regs : Stmt
    assert_bytes : Program.AssertBytes → Stmt
    assert_size : Program.AssertSize → Stmt
    metal_deterministic : Stmt
    cpu_lea_rip : Isa.CpuLeaRip → Stmt
    cpu_lea_abs : Isa.CpuLeaAbs → Stmt
    data_align : Program.DataAlign → Stmt
    section_at : Program.SectionAt → Stmt
    cpu_shld : Isa.CpuShld → Stmt
    cpu_shrd : Isa.CpuShrd → Stmt
    cpu_imul_imm : Isa.CpuImulImm → Stmt
    cpu_andn : Isa.CpuAndn → Stmt
    cpu_bzhi : Isa.CpuBzhi → Stmt
    cpu_cmpxchg16b : Isa.CpuCmpxchg16b → Stmt
    cpu_cmov_mem : Isa.CpuCmovMem → Stmt
    prefixed_op : Isa.PrefixedOp → Stmt
    cell_protect : System.CellProtect → Stmt
    sig_action : System.SigAction → Stmt
    sig_return : Stmt
    cpu_adc : Isa.CpuAdc → Stmt
    cpu_sbb : Isa.CpuSbb → Stmt
    cpu_bswap : Isa.CpuBswap → Stmt
    cpu_flag_op : Isa.CpuFlagOp → Stmt
    cpu_mul_div1 : Isa.CpuMulDiv1 → Stmt
    cpu_test_imm : Isa.CpuTestImm → Stmt
    cpu_bit_op : Isa.CpuBitOp → Stmt
    cpu_popcnt : Isa.CpuPopcnt → Stmt
    cpu_lzcnt : Isa.CpuLzcnt → Stmt
    cpu_tzcnt : Isa.CpuTzcnt → Stmt
    cpu_movsxd : Isa.CpuMovsxd → Stmt
    cpu_shlx : Isa.CpuShlx → Stmt
    cpu_shrx : Isa.CpuShrx → Stmt
    cpu_sarx : Isa.CpuSarx → Stmt
    cpu_rorx : Isa.CpuRorx → Stmt
    cpu_bextr : Isa.CpuBextr → Stmt
    cpu_blsi : Isa.CpuBlsi → Stmt
    cpu_blsr : Isa.CpuBlsr → Stmt
    cpu_blsmsk : Isa.CpuBlsmsk → Stmt
    cpu_adcx : Isa.CpuAdcx → Stmt
    cpu_adox : Isa.CpuAdox → Stmt
    cpu_crc32 : Isa.CpuCrc32 → Stmt
    cpu_rdrand : Isa.CpuRdrand → Stmt
    cpu_rdseed : Isa.CpuRdseed → Stmt
    cpu_pext : Isa.CpuPext → Stmt
    cpu_pdep : Isa.CpuPdep → Stmt
    cpu_mulx : Isa.CpuMulx → Stmt
    cpu_cmpxchg : Isa.CpuCmpxchg → Stmt
    cpu_prefetch : Isa.CpuPrefetch → Stmt
    cpu_clflush : Isa.CpuClflush → Stmt
    cpu_movzx : Isa.CpuMovzx → Stmt
    cpu_movsx : Isa.CpuMovsx → Stmt
    cpu_bit_imm : Isa.CpuBitImm → Stmt
    cpu_shld_imm : Isa.CpuShldImm → Stmt
    cpu_shrd_imm : Isa.CpuShrdImm → Stmt
    cpu_nop_long : Stmt
    cpu_enter : Isa.CpuEnter → Stmt
    cpu_imul3 : Isa.CpuImul3 → Stmt
    cpu_mxcsr : Isa.CpuMxcsr → Stmt
    cpu_fx : Isa.CpuFx → Stmt
    cpu_xgetbv : Stmt
    cpu_fs_gs : Isa.CpuFsGs → Stmt
    cpu_priv_op : Isa.CpuPrivOp → Stmt
    cell_map_file : System.CellMapFile → Stmt
    thread_join_all : Stmt
    net_poll : System.NetPoll → Stmt
    net_epoll_create : System.NetEpollCreate → Stmt
    net_epoll_ctl : System.NetEpollCtl → Stmt
    net_epoll_wait : System.NetEpollWait → Stmt
    chip_serial_init : Stmt
    chip_serial_putc : Kernel.ChipSerialPutc → Stmt
    chip_lidt : Kernel.ChipLidt → Stmt
    chip_lgdt : Kernel.ChipLgdt → Stmt
    kernel_heap_init : Kernel.KernelHeapInit → Stmt
    kernel_heap_alloc : Kernel.KernelHeapAlloc → Stmt
    kernel_ctx_save : Kernel.KernelCtxSave → Stmt
    kernel_ctx_load : Kernel.KernelCtxLoad → Stmt
    chip_kbd_poll : Kernel.ChipKbdPoll → Stmt
    chip_int : Kernel.ChipInt → Stmt
    kernel_idt_install : Stmt
    chip_pit_init : Kernel.ChipPitInit → Stmt
    chip_pic_remap : Stmt
    kernel_coop_switch : Kernel.KernelCoopSwitch → Stmt
    kernel_printk_str : Kernel.KernelPrintkStr → Stmt
    kernel_panic : Stmt
    kernel_tick_install : Stmt
    kernel_tick_read : Kernel.KernelTickRead → Stmt
    kernel_ramfs_init : Stmt
    kernel_ramfs_put : Kernel.KernelRamfsPut → Stmt
    kernel_ramfs_get : Kernel.KernelRamfsGet → Stmt
    kernel_net_init : Stmt
    kernel_net_poll : Kernel.KernelNetPoll → Stmt
    kernel_cs_ring : Kernel.KernelCsRing → Stmt
    kernel_enter_user : Kernel.KernelEnterUser → Stmt
    kernel_pf_install : Stmt
    kernel_net_allow_port : Kernel.KernelNetAllowPort → Stmt
    kernel_net_check_port : Kernel.KernelNetCheckPort → Stmt
    kernel_preempt_arm : Kernel.KernelPreemptArm → Stmt
    kernel_syscall_init : Stmt
    kernel_sysret : Stmt
    kernel_nic_bar : Kernel.KernelNicBar → Stmt
    kernel_nic_reg_read : Kernel.KernelNicRegRead → Stmt
    kernel_nic_reg_write : Kernel.KernelNicRegWrite → Stmt
    kernel_irq_full_save : Stmt
    kernel_syscall_table_init : Stmt
    kernel_syscall_register : Kernel.KernelSyscallRegister → Stmt
    kernel_nmi_install : Stmt
    kernel_dma_ring_init : Kernel.KernelDmaRingInit → Stmt
    kernel_dma_ring_push : Kernel.KernelDmaRingPush → Stmt
    kernel_dma_ring_pop : Kernel.KernelDmaRingPop → Stmt

  pub data Nodes : Type 0 where
    nil : Nodes
    cons : Node → Nodes → Nodes

-- ===== src/Codegen/Kernel/Heap.antt =====
-- ACLM/codegen.py: the heap of a kernel and its network flags.
use aclmv.Prelude.{◌^◌, String, none, [], ◌∷◌, replicate}
use aclmv.Prelude.Int.{pos, wrap}
use aclmv.Ast.Kernel
use aclmv.Encoder.Call
use aclmv.Codegen.{Gen, ◌>>=◌, ◌>>◌, asm, resolve_name, move_unless, new_label, reserve, data_label}
use aclmv.Codegen.Eval.{eval}

unfoldable pub kernel_heap_init : Kernel.KernelHeapInit → Gen (Unit {0})
kernel_heap_init s = do
  let name : String = "__kheap"
  let ptr : String = "__kheap_ptr"
  reserve name (replicate s.size 0)
  reserve ptr (replicate 8 0)
  asm (Call.lea_reg_label "r15" (data_label name))
  asm (Call.lea_reg_label "r12" (data_label ptr))
  asm (Call.mov_mem_reg "r12" (pos 0) "r15" none 1)

unfoldable pub kernel_heap_alloc : Kernel.KernelHeapAlloc → Gen (Unit {0})
kernel_heap_alloc s = do
  dest ← resolve_name s.dest
  asm (Call.push_reg "r12")
  asm (Call.lea_reg_label "r12" "__data___kheap_ptr")
  asm (Call.mov_reg_mem "r15" "r12" (pos 0) none 1)
  asm (Call.mov_reg_reg dest "r15")
  eval s.size "r11"
  asm (Call.add_reg_reg "r15" "r11")
  asm (Call.mov_mem_reg "r12" (pos 0) "r15" none 1)
  asm (Call.pop_reg "r12")

unfoldable pub kernel_net_init : Gen (Unit {0})
kernel_net_init = reserve "__net" (1 ∷ replicate 7 0)

unfoldable pub kernel_net_poll : Kernel.KernelNetPoll → Gen (Unit {0})
kernel_net_poll s = do dest ← resolve_name s.dest; asm (Call.xor_reg_reg dest dest)

unfoldable pub kernel_cs_ring : Kernel.KernelCsRing → Gen (Unit {0})
kernel_cs_ring s = do
  dest ← resolve_name s.dest
  asm (Call.raw_bytes (0x66 ∷ 0x8c ∷ 0xc8 ∷ []))
  asm (Call.and_reg_imm "rax" (pos 3))
  move_unless dest "rax"

unfoldable pub kernel_net_allow : Kernel.KernelNetAllowPort → Gen (Unit {0})
kernel_net_allow s = do
  reserve "__net_allow" (replicate 8 0)
  let bit = 2 ^ wrap 64 s.port
  asm (Call.push_reg "rax")
  asm (Call.push_reg "rcx")
  asm (Call.lea_reg_label "rax" "__data___net_allow")
  asm (Call.mov_reg_mem "rcx" "rax" (pos 0) none 1)
  asm (Call.mov_reg_imm64 "rdx" (pos bit))
  asm (Call.or_reg_reg "rcx" "rdx")
  asm (Call.mov_mem_reg "rax" (pos 0) "rcx" none 1)
  asm (Call.pop_reg "rcx")
  asm (Call.pop_reg "rax")

unfoldable pub kernel_net_check : Kernel.KernelNetCheckPort → Gen (Unit {0})
kernel_net_check s = do
  dest ← resolve_name s.dest
  reserve "__net_allow" (replicate 8 0)
  asm (Call.push_reg "rcx")
  asm (Call.push_reg "rdx")
  asm (Call.push_reg "rsi")
  eval s.port "rcx"
  asm (Call.and_reg_imm "rcx" (pos 63))
  asm (Call.lea_reg_label "rsi" "__data___net_allow")
  asm (Call.mov_reg_mem "rdx" "rsi" (pos 0) none 1)
  asm (Call.mov_reg_imm64 "rsi" (pos 1))
  asm (Call.shl_reg_cl "rsi")
  asm (Call.and_reg_reg "rdx" "rsi")
  asm (Call.test_reg_reg "rdx" "rdx")
  nz ← new_label "nck"
  z ← new_label "nckz"
  asm (Call.jcc "neq" nz)
  asm (Call.xor_reg_reg dest dest)
  asm (Call.jmp z)
  asm (Call.label_here nz)
  asm (Call.mov_reg_imm64 dest (pos 1))
  asm (Call.label_here z)
  asm (Call.pop_reg "rsi")
  asm (Call.pop_reg "rdx")
  asm (Call.pop_reg "rcx")

unfoldable pub kernel_preempt_arm : Kernel.KernelPreemptArm → Gen (Unit {0})
kernel_preempt_arm s = do
  reserve "__preempt_req" (replicate 8 0)
  asm (Call.push_reg "rax")
  asm (Call.lea_reg_label "rax" "__data___preempt_req")
  r1 ← resolve_name s.ctx
  asm (Call.mov_mem_reg "rax" (pos 0) r1 none 1)
  asm (Call.pop_reg "rax")

unfoldable pub kernel_nic_bar : Kernel.KernelNicBar → Gen (Unit {0})
kernel_nic_bar s = do
  reserve "__nic_bar" (replicate 8 0)
  asm (Call.push_reg "rax")
  eval s.addr "rax"
  asm (Call.lea_reg_label "r15" "__data___nic_bar")
  asm (Call.mov_mem_reg "r15" (pos 0) "rax" none 1)
  asm (Call.pop_reg "rax")

unfoldable pub kernel_nic_read : Kernel.KernelNicRegRead → Gen (Unit {0})
kernel_nic_read s = do
  dest ← resolve_name s.dest
  reserve "__nic_bar" (replicate 8 0)
  asm (Call.push_reg "rdx")
  asm (Call.push_reg "rsi")
  asm (Call.lea_reg_label "rsi" "__data___nic_bar")
  asm (Call.mov_reg_mem "rsi" "rsi" (pos 0) none 1)
  eval s.offset "rdx"
  asm (Call.add_reg_reg "rsi" "rdx")
  asm (Call.mov32_reg_mem dest "rsi" (pos 0) none 1)
  asm (Call.pop_reg "rsi")
  asm (Call.pop_reg "rdx")

unfoldable pub kernel_nic_write : Kernel.KernelNicRegWrite → Gen (Unit {0})
kernel_nic_write s = do
  reserve "__nic_bar" (replicate 8 0)
  asm (Call.push_reg "rax")
  asm (Call.push_reg "rdx")
  asm (Call.push_reg "rcx")
  asm (Call.lea_reg_label "rax" "__data___nic_bar")
  asm (Call.mov_reg_mem "rax" "rax" (pos 0) none 1)
  eval s.offset "rdx"
  asm (Call.add_reg_reg "rax" "rdx")
  eval s.value "rcx"
  asm (Call.mov32_mem_reg "rax" (pos 0) "rcx" none 1)
  asm (Call.pop_reg "rcx")
  asm (Call.pop_reg "rdx")
  asm (Call.pop_reg "rax")

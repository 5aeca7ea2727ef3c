-- ===== src/Codegen/Kernel/Dma.antt =====
-- ACLM/codegen.py: the ring of DMA descriptors.
use aclmv.Prelude.{◌+◌, ◌*◌, none, ◌++◌, if◌then◌else◌, replicate, has, insert, length}
use aclmv.Prelude.Int.{pos, sub_ℕ}
use aclmv.Ast.Kernel
use aclmv.Encoder.Call
use aclmv.Codegen.{Gen, ◌>>=◌, ◌>>◌, set, asm, resolve_name, new_label}
use aclmv.Codegen.Eval.{eval}

-- The size counts the 16 bytes of head, tail, mask and padding; `__dmaring_slots` is entered in the layout as
-- the number of slots.
unfoldable pub kernel_dma_ring_init : Kernel.KernelDmaRingInit → Gen (Unit {0})
kernel_dma_ring_init s = do
  set λ g. if has "__dmaring" g.data_layout then g else record g {
    data_layout =
        insert "__dmaring_slots" s.slots (insert "__dmaring" (length g.data_bytes) g.data_layout);
    data_bytes = g.data_bytes ++ replicate (16 + s.slots * 16) 0;
  }
  asm (Call.push_reg "rax")
  asm (Call.push_reg "rdi")
  asm (Call.lea_reg_label "rdi" "__data___dmaring")
  asm (Call.xor_reg_reg "rax" "rax")
  asm (Call.mov_mem_reg "rdi" (pos 0) "rax" none 1)
  asm (Call.mov_mem_reg "rdi" (pos 4) "rax" none 1)
  asm (Call.mov_reg_imm64 "rax" (sub_ℕ s.slots 1))
  asm (Call.mov32_mem_reg "rdi" (pos 8) "rax" none 1)
  asm (Call.pop_reg "rdi")
  asm (Call.pop_reg "rax")

unfoldable pub kernel_dma_ring_push : Kernel.KernelDmaRingPush → Gen (Unit {0})
kernel_dma_ring_push s = do
  asm (Call.push_reg "r8")
  asm (Call.push_reg "r9")
  asm (Call.push_reg "r10")
  asm (Call.push_reg "r11")
  asm (Call.lea_reg_label "r8" "__data___dmaring")
  asm (Call.mov32_reg_mem "r9" "r8" (pos 0) none 1)
  asm (Call.mov32_reg_mem "r10" "r8" (pos 4) none 1)
  asm (Call.mov32_reg_mem "r11" "r8" (pos 8) none 1)
  asm (Call.mov_reg_reg "rax" "r9")
  asm (Call.add_reg_imm "rax" (pos 1))
  asm (Call.and_reg_reg "rax" "r11")
  asm (Call.cmp_reg_reg "rax" "r10")
  full ← new_label "dmf"
  ok ← new_label "dmo"
  asm (Call.jcc "eq" full)
  asm (Call.mov_reg_reg "rax" "r9")
  asm (Call.shl_reg_imm8 "rax" (pos 4))
  asm (Call.add_reg_imm "rax" (pos 16))
  asm (Call.add_reg_reg "rax" "r8")
  asm (Call.mov_reg_reg "r10" "rax")
  eval s.addr "rax"
  asm (Call.mov_mem_reg "r10" (pos 0) "rax" none 1)
  eval s.length "rax"
  asm (Call.mov_mem_reg "r10" (pos 8) "rax" none 1)
  asm (Call.mov_reg_reg "rax" "r9")
  asm (Call.add_reg_imm "rax" (pos 1))
  asm (Call.and_reg_reg "rax" "r11")
  asm (Call.mov32_mem_reg "r8" (pos 0) "rax" none 1)
  r1 ← resolve_name "reg1"
  r2 ← resolve_name "reg1"
  asm (Call.xor_reg_reg r1 r2)
  asm (Call.jmp ok)
  asm (Call.label_here full)
  r3 ← resolve_name "reg1"
  asm (Call.mov_reg_imm64 r3 (pos 1))
  asm (Call.label_here ok)
  asm (Call.pop_reg "r11")
  asm (Call.pop_reg "r10")
  asm (Call.pop_reg "r9")
  asm (Call.pop_reg "r8")

unfoldable pub kernel_dma_ring_pop : Kernel.KernelDmaRingPop → Gen (Unit {0})
kernel_dma_ring_pop s = do
  da ← resolve_name s.dest_addr
  dl ← resolve_name s.dest_len
  asm (Call.push_reg "r8")
  asm (Call.push_reg "r9")
  asm (Call.push_reg "r10")
  asm (Call.push_reg "r11")
  asm (Call.lea_reg_label "r8" "__data___dmaring")
  asm (Call.mov32_reg_mem "r9" "r8" (pos 0) none 1)
  asm (Call.mov32_reg_mem "r10" "r8" (pos 4) none 1)
  asm (Call.cmp_reg_reg "r9" "r10")
  empty ← new_label "dme"
  ok ← new_label "dmok"
  asm (Call.jcc "eq" empty)
  asm (Call.mov32_reg_mem "r11" "r8" (pos 8) none 1)
  asm (Call.mov_reg_reg "rax" "r10")
  asm (Call.shl_reg_imm8 "rax" (pos 4))
  asm (Call.add_reg_imm "rax" (pos 16))
  asm (Call.add_reg_reg "rax" "r8")
  asm (Call.mov_reg_mem da "rax" (pos 0) none 1)
  asm (Call.mov_reg_mem dl "rax" (pos 8) none 1)
  asm (Call.add_reg_imm "r10" (pos 1))
  asm (Call.and_reg_reg "r10" "r11")
  asm (Call.mov32_mem_reg "r8" (pos 4) "r10" none 1)
  r1 ← resolve_name "reg1"
  r2 ← resolve_name "reg1"
  asm (Call.xor_reg_reg r1 r2)
  asm (Call.jmp ok)
  asm (Call.label_here empty)
  r3 ← resolve_name "reg1"
  asm (Call.mov_reg_imm64 r3 (pos 1))
  asm (Call.label_here ok)
  asm (Call.pop_reg "r11")
  asm (Call.pop_reg "r10")
  asm (Call.pop_reg "r9")
  asm (Call.pop_reg "r8")

-- ===== src/Codegen/Kernel/Interrupts.antt =====
-- ACLM/codegen.py: the interrupt table, the timer interrupt and the exception stubs.
use aclmv.Prelude.{String, none, replicate}
use aclmv.Prelude.Int.{ℤ, pos}
use aclmv.Ast.Kernel
use aclmv.Encoder.Call
use aclmv.Codegen.{Gen, ◌>>=◌, ◌>>◌, asm, when, resolve_name, new_label, reserve, once, has_data}

-- The descriptor at rdi, for the handler at rsi. The source repeats these calls for every stub.
unfoldable pub fill_gate : Gen (Unit {0})
fill_gate = do
  asm (Call.mov16_mem_reg "rdi" (pos 0) "rsi" none 1)
  asm (Call.mov_reg_imm64 "rax" (pos 8))
  asm (Call.mov16_mem_reg "rdi" (pos 2) "rax" none 1)
  asm (Call.mov_reg_imm64 "rax" (pos 0x8e00))
  asm (Call.mov16_mem_reg "rdi" (pos 4) "rax" none 1)
  asm (Call.mov_reg_reg "rax" "rsi")
  asm (Call.shr_reg_imm8 "rax" (pos 16))
  asm (Call.mov16_mem_reg "rdi" (pos 6) "rax" none 1)
  asm (Call.mov_reg_reg "rax" "rsi")
  asm (Call.shr_reg_imm8 "rax" (pos 32))
  asm (Call.mov32_mem_reg "rdi" (pos 8) "rax" none 1)
  asm (Call.xor_reg_reg "rax" "rax")
  asm (Call.mov32_mem_reg "rdi" (pos 12) "rax" none 1)

-- `if "__idt" in self.data_layout`: the descriptor at an offset of the table gets a stub.
unfoldable pub patch_gate : String → ℤ → Gen (Unit {0})
unfolding has_data fill_gate
patch_gate stub off = do
  there ← has_data "__idt"
  when there (do
    asm (Call.push_reg "rax")
    asm (Call.push_reg "rdi")
    asm (Call.push_reg "rsi")
    asm (Call.lea_reg_label "rsi" stub)
    asm (Call.lea_reg_label "rdi" "__data___idt")
    asm (Call.add_reg_imm "rdi" off)
    fill_gate
    asm (Call.pop_reg "rsi")
    asm (Call.pop_reg "rdi")
    asm (Call.pop_reg "rax"))

unfoldable pub kernel_idt_install : Gen (Unit {0})
kernel_idt_install = do
  once "_idt_handler_emitted" (do
    asm (Call.jmp "__idt_after_handler")
    asm (Call.label_here "__isr_default")
    asm Call.cli
    asm Call.hlt
    asm (Call.jmp "__isr_default")
    asm (Call.label_here "__idt_after_handler"))
  reserve "__idt" (replicate 0x1000 0)
  reserve "__idtr" (replicate 10 0)
  asm (Call.push_reg "rax")
  asm (Call.push_reg "rcx")
  asm (Call.push_reg "rdx")
  asm (Call.push_reg "rdi")
  asm (Call.push_reg "rsi")
  asm (Call.lea_reg_label "rsi" "__isr_default")
  asm (Call.lea_reg_label "rdi" "__data___idt")
  asm (Call.mov_reg_imm64 "rcx" (pos 0x100))
  loop ← new_label "idtf"
  asm (Call.label_here loop)
  asm (Call.mov_reg_reg "rax" "rsi")
  asm (Call.mov_mem_reg "rdi" (pos 0) "rax" none 1)
  fill_gate
  asm (Call.add_reg_imm "rdi" (pos 16))
  asm (Call.sub_reg_imm "rcx" (pos 1))
  asm (Call.test_reg_reg "rcx" "rcx")
  asm (Call.jcc "neq" loop)
  asm (Call.lea_reg_label "rax" "__data___idt")
  asm (Call.lea_reg_label "rdi" "__data___idtr")
  asm (Call.mov_reg_imm64 "rcx" (pos 0xfff))
  asm (Call.mov16_mem_reg "rdi" (pos 0) "rcx" none 1)
  asm (Call.mov_mem_reg "rdi" (pos 2) "rax" none 1)
  asm (Call.lidt_mem "rdi" (pos 0))
  asm (Call.pop_reg "rsi")
  asm (Call.pop_reg "rdi")
  asm (Call.pop_reg "rdx")
  asm (Call.pop_reg "rcx")
  asm (Call.pop_reg "rax")

unfoldable pub kernel_tick_install : Gen (Unit {0})
kernel_tick_install = do
  reserve "__tick" (replicate 8 0)
  once "_irq0_emitted" (do
    asm (Call.jmp "__after_irq0")
    asm (Call.label_here "__irq0_stub")
    asm (Call.push_reg "rax")
    asm (Call.push_reg "rdx")
    asm (Call.lea_reg_label "rax" "__data___tick")
    asm (Call.mov_reg_mem "rdx" "rax" (pos 0) none 1)
    asm (Call.add_reg_imm "rdx" (pos 1))
    asm (Call.mov_mem_reg "rax" (pos 0) "rdx" none 1)
    asm (Call.mov_reg_imm64 "rdx" (pos 32))
    asm (Call.mov_reg_imm64 "rax" (pos 32))
    asm Call.out_dx_al
    asm (Call.pop_reg "rdx")
    asm (Call.pop_reg "rax")
    asm Call.iretq
    asm (Call.label_here "__after_irq0"))
  patch_gate "__irq0_stub" (pos 0x200)

unfoldable pub kernel_tick_read : Kernel.KernelTickRead → Gen (Unit {0})
kernel_tick_read s = do
  dest ← resolve_name s.dest
  reserve "__tick" (replicate 8 0)
  asm (Call.lea_reg_label "r15" "__data___tick")
  asm (Call.mov_reg_mem dest "r15" (pos 0) none 1)

unfoldable pub kernel_pf_install : Gen (Unit {0})
kernel_pf_install = do
  once "_pf_emitted" (do
    asm (Call.jmp "__after_pf")
    asm (Call.label_here "__pf_stub")
    asm Call.cli
    asm Call.hlt
    asm (Call.jmp "__pf_stub")
    asm (Call.label_here "__after_pf"))
  patch_gate "__pf_stub" (pos 224)

unfoldable pub kernel_nmi_install : Gen (Unit {0})
kernel_nmi_install = do
  once "_nmi_emitted" (do
    asm (Call.jmp "__after_nmi")
    asm (Call.label_here "__nmi_stub")
    asm Call.cli
    asm Call.hlt
    asm (Call.jmp "__nmi_stub")
    asm (Call.label_here "__after_nmi"))
  patch_gate "__nmi_stub" (pos 32)

unfoldable pub kernel_irq_full_save_on : Gen (Unit {0})
kernel_irq_full_save_on = do
  reserve "__irq_gprs" (replicate 128 0)
  reserve "__tick" (replicate 8 0)
  once "_irq0_full_emitted" (do
    asm (Call.jmp "__after_irq0_full")
    asm (Call.label_here "__irq0_full")
    asm (Call.push_reg "r15")
    asm (Call.lea_reg_label "r15" "__data___irq_gprs")
    asm (Call.mov_mem_reg "r15" (pos 0) "rax" none 1)
    asm (Call.mov_mem_reg "r15" (pos 8) "rbx" none 1)
    asm (Call.mov_mem_reg "r15" (pos 16) "rcx" none 1)
    asm (Call.mov_mem_reg "r15" (pos 24) "rdx" none 1)
    asm (Call.mov_mem_reg "r15" (pos 32) "rsi" none 1)
    asm (Call.mov_mem_reg "r15" (pos 40) "rdi" none 1)
    asm (Call.mov_mem_reg "r15" (pos 48) "r8" none 1)
    asm (Call.mov_mem_reg "r15" (pos 56) "r9" none 1)
    asm (Call.mov_mem_reg "r15" (pos 0x40) "r10" none 1)
    asm (Call.mov_mem_reg "r15" (pos 72) "r11" none 1)
    asm (Call.mov_mem_reg "r15" (pos 80) "r12" none 1)
    asm (Call.mov_mem_reg "r15" (pos 88) "r13" none 1)
    asm (Call.mov_mem_reg "r15" (pos 96) "r14" none 1)
    asm (Call.mov_reg_mem "rax" "rsp" (pos 0) none 1)
    asm (Call.mov_mem_reg "r15" (pos 104) "rax" none 1)
    asm (Call.lea_reg_label "rax" "__data___tick")
    asm (Call.mov_reg_mem "rdx" "rax" (pos 0) none 1)
    asm (Call.add_reg_imm "rdx" (pos 1))
    asm (Call.mov_mem_reg "rax" (pos 0) "rdx" none 1)
    asm (Call.mov_reg_imm64 "rdx" (pos 32))
    asm (Call.mov_reg_imm64 "rax" (pos 32))
    asm Call.out_dx_al
    asm (Call.lea_reg_label "r15" "__data___irq_gprs")
    asm (Call.mov_reg_mem "rax" "r15" (pos 0) none 1)
    asm (Call.mov_reg_mem "rbx" "r15" (pos 8) none 1)
    asm (Call.mov_reg_mem "rcx" "r15" (pos 16) none 1)
    asm (Call.mov_reg_mem "rdx" "r15" (pos 24) none 1)
    asm (Call.mov_reg_mem "rsi" "r15" (pos 32) none 1)
    asm (Call.mov_reg_mem "rdi" "r15" (pos 40) none 1)
    asm (Call.mov_reg_mem "r8" "r15" (pos 48) none 1)
    asm (Call.mov_reg_mem "r9" "r15" (pos 56) none 1)
    asm (Call.mov_reg_mem "r10" "r15" (pos 0x40) none 1)
    asm (Call.mov_reg_mem "r11" "r15" (pos 72) none 1)
    asm (Call.mov_reg_mem "r12" "r15" (pos 80) none 1)
    asm (Call.mov_reg_mem "r13" "r15" (pos 88) none 1)
    asm (Call.mov_reg_mem "r14" "r15" (pos 96) none 1)
    asm (Call.pop_reg "r15")
    asm Call.iretq
    asm (Call.label_here "__after_irq0_full"))
  patch_gate "__irq0_full" (pos 0x200)

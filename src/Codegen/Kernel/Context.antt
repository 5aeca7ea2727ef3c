-- ===== src/Codegen/Kernel/Context.antt =====
-- ACLM/codegen.py: saving and loading the registers of a task.
use aclmv.Prelude.{ℕ, ◌+◌, ◌*◌, String, str_eq, none, List, [], ◌∷◌, if◌then◌else◌}
use aclmv.Prelude.Int.{pos}
use aclmv.Ast.Kernel
use aclmv.Encoder.Call
use aclmv.Codegen.{Gen, ◌>>=◌, ◌>>◌, asm, for_each, resolve_name}

abbrev saved_regs : List String
saved_regs =
    "rax" ∷ "rbx" ∷ "rcx" ∷ "rdx" ∷ "rsi" ∷ "rdi" ∷ "r8" ∷ "r9" ∷ "r10" ∷ "r11" ∷ "r12" ∷ "r13"
    ∷ "r14" ∷ "r15" ∷ "rbp" ∷ "rsp" ∷ []

abbrev loaded_regs : List String
loaded_regs =
    "rax" ∷ "rbx" ∷ "rcx" ∷ "rdx" ∷ "rsi" ∷ "rdi" ∷ "r8" ∷ "r9" ∷ "r10" ∷ "r11" ∷ "r12" ∷ "r13"
    ∷ "r14" ∷ "r15" ∷ []

-- `enumerate`, from a number on.
abbrev numbered : ℕ → List String → List (ℕ × String)
numbered i [] = []
numbered i (r ∷ rs) = (i, r) ∷ numbered (1 + i) rs

unfoldable pub kernel_ctx_save : Kernel.KernelCtxSave → Gen (Unit {0})
kernel_ctx_save s = do
  base ← resolve_name s.dest
  asm (Call.push_reg base)
  asm (Call.mov_reg_reg "r15" base)
  for_each (numbered 0 saved_regs) λ p.
      if str_eq p.1 "rsp"
      then (do
        asm (Call.mov_reg_mem "r11" "rsp" (pos 0) none 1)
        asm (Call.mov_mem_reg "r15" (pos (p.0 * 8)) "rsp" none 1))
      else asm (Call.mov_mem_reg "r15" (pos (p.0 * 8)) p.1 none 1)
  asm (Call.pop_reg base)

unfoldable pub kernel_ctx_load : Kernel.KernelCtxLoad → Gen (Unit {0})
kernel_ctx_load s = do
  base ← resolve_name s.src
  asm (Call.mov_reg_reg "r15" base)
  for_each (numbered 0 loaded_regs) λ p. asm (Call.mov_reg_mem p.1 "r15" (pos (p.0 * 8)) none 1)
  asm (Call.mov_reg_mem "rbp" "r15" (pos 112) none 1)

unfoldable pub kernel_coop_switch : Kernel.KernelCoopSwitch → Gen (Unit {0})
kernel_coop_switch s = do
  kernel_ctx_save (record { dest = s.save })
  kernel_ctx_load (record { src = s.load })

-- ===== src/Codegen/Cells.antt =====
-- ACLM/codegen.py: memory mappings, the spin lock and the clock.
use aclmv.Prelude.{none, [], ◌∷◌}
use aclmv.Prelude.Int.{pos}
use aclmv.Ast.System
use aclmv.Encoder.Call
use aclmv.Codegen.{Gen, ◌>>=◌, ◌>>◌, asm, resolve_name, move_unless, push_all}
use aclmv.Codegen.Eval.{eval, eval_or}

unfoldable pub cell_map : System.CellMap → Gen (Unit {0})
cell_map s = do
  push_all ("r12" ∷ "r13" ∷ "r14" ∷ [])
  eval s.size "r12"
  eval_or s.prot "r13" (asm (Call.mov_reg_imm64 "r13" (pos 3)))
  eval_or s.flags "r14" (asm (Call.mov_reg_imm64 "r14" (pos 34)))
  asm (Call.xor_reg_reg "rdi" "rdi")
  asm (Call.mov_reg_reg "rsi" "r12")
  asm (Call.mov_reg_reg "rdx" "r13")
  asm (Call.mov_reg_reg "r10" "r14")
  asm (Call.mov_reg_imm64 "r8" (pos 0xffffffffffffffff))
  asm (Call.xor_reg_reg "r9" "r9")
  asm (Call.mov_reg_imm64 "rax" (pos 9))
  asm Call.syscall
  dst ← resolve_name s.dest
  move_unless dst "rax"
  asm (Call.pop_reg "r14")
  asm (Call.pop_reg "r13")
  asm (Call.pop_reg "r12")

unfoldable pub cell_mapfile : System.CellMapFile → Gen (Unit {0})
cell_mapfile s = do
  push_all ("r12" ∷ "r13" ∷ "r14" ∷ "rbx" ∷ [])
  eval s.size "r12"
  eval s.fd "r13"
  eval_or s.offset "r14" (asm (Call.xor_reg_reg "r14" "r14"))
  eval_or s.prot "rbx" (asm (Call.mov_reg_imm64 "rbx" (pos 3)))
  asm (Call.xor_reg_reg "rdi" "rdi")
  asm (Call.mov_reg_reg "rsi" "r12")
  asm (Call.mov_reg_reg "rdx" "rbx")
  asm (Call.mov_reg_imm64 "r10" (pos 2))
  asm (Call.mov_reg_reg "r8" "r13")
  asm (Call.mov_reg_reg "r9" "r14")
  asm (Call.mov_reg_imm64 "rax" (pos 9))
  asm Call.syscall
  dst ← resolve_name s.dest
  move_unless dst "rax"
  asm (Call.pop_reg "rbx")
  asm (Call.pop_reg "r14")
  asm (Call.pop_reg "r13")
  asm (Call.pop_reg "r12")

unfoldable pub cell_free : System.CellFree → Gen (Unit {0})
cell_free s = do
  eval s.ptr "r15"
  asm (Call.push_reg "r15")
  eval s.size "r15"
  asm (Call.mov_reg_reg "rsi" "r15")
  asm (Call.pop_reg "rdi")
  asm (Call.mov_reg_imm64 "rax" (pos 11))
  asm Call.syscall

unfoldable pub cell_protect : System.CellProtect → Gen (Unit {0})
cell_protect s = do
  push_all ("r12" ∷ "r13" ∷ "r14" ∷ [])
  eval s.ptr "r12"
  eval s.size "r13"
  eval s.prot "r14"
  asm (Call.mov_reg_reg "rdi" "r12")
  asm (Call.mov_reg_reg "rsi" "r13")
  asm (Call.mov_reg_reg "rdx" "r14")
  asm (Call.mov_reg_imm64 "rax" (pos 10))
  asm Call.syscall
  asm (Call.pop_reg "r14")
  asm (Call.pop_reg "r13")
  asm (Call.pop_reg "r12")

unfoldable pub pulse_sleep : System.PulseSleep → Gen (Unit {0})
pulse_sleep s = do
  asm (Call.lea_reg_label "rdi" "__data___timespec")
  asm (Call.xor_reg_reg "rax" "rax")
  asm (Call.mov_mem_reg "rdi" (pos 0) "rax" none 1)
  eval s.ns "rax"
  asm (Call.mov_mem_reg "rdi" (pos 8) "rax" none 1)
  asm (Call.xor_reg_reg "rsi" "rsi")
  asm (Call.mov_reg_imm64 "rax" (pos 35))
  asm Call.syscall

unfoldable pub pulse_now : System.PulseNow → Gen (Unit {0})
pulse_now s = do
  asm (Call.mov_reg_imm64 "rdi" (pos 1))
  asm (Call.lea_reg_label "rsi" "__data___timespec")
  asm (Call.mov_reg_imm64 "rax" (pos 228))
  asm Call.syscall
  asm (Call.lea_reg_label "r11" "__data___timespec")
  r1 ← resolve_name s.dest
  asm (Call.mov_reg_mem r1 "r11" (pos 0) none 1)

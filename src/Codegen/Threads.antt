-- ===== src/Codegen/Threads.antt =====
-- ACLM/codegen.py: threads.
use aclmv.Prelude.{none}
use aclmv.Prelude.Int.{pos}
use aclmv.Ast.System
use aclmv.Encoder.Call
use aclmv.Codegen.{Gen, ◌>>=◌, ◌>>◌, asm, resolve_name, move_unless, new_label, lbl}
use aclmv.Codegen.Eval.{eval_or}

unfoldable pub thread_spawn : System.ThreadSpawn → Gen (Unit {0})
thread_spawn s = do
  asm (Call.xor_reg_reg "rdi" "rdi")
  asm (Call.mov_reg_imm64 "rsi" (pos 0x100000))
  asm (Call.mov_reg_imm64 "rdx" (pos 3))
  asm (Call.mov_reg_imm64 "r10" (pos 34))
  asm (Call.mov_reg_imm64 "r8" (pos 0xffffffffffffffff))
  asm (Call.xor_reg_reg "r9" "r9")
  asm (Call.mov_reg_imm64 "rax" (pos 9))
  asm Call.syscall
  asm (Call.mov_reg_reg "r12" "rax")
  asm (Call.add_reg_imm "r12" (pos 0xffff0))
  asm (Call.mov_reg_imm64 "rdi" (pos 0xf00))
  asm (Call.mov_reg_reg "rsi" "r12")
  asm (Call.xor_reg_reg "rdx" "rdx")
  asm (Call.xor_reg_reg "r10" "r10")
  asm (Call.xor_reg_reg "r8" "r8")
  asm (Call.mov_reg_imm64 "rax" (pos 56))
  asm Call.syscall
  child ← new_label "thr_c"
  parent ← new_label "thr_p"
  asm (Call.test_reg_reg "rax" "rax")
  asm (Call.jcc "eq" child)
  dst ← resolve_name s.dest
  move_unless dst "rax"
  asm (Call.push_reg "rax")
  asm (Call.lea_reg_label "rdi" "__data___thr_futex")
  asm (Call.mov_reg_mem "rax" "rdi" (pos 16) none 1)
  asm (Call.add_reg_imm "rax" (pos 1))
  asm (Call.mov_mem_reg "rdi" (pos 16) "rax" none 1)
  asm (Call.pop_reg "rax")
  asm (Call.jmp parent)
  asm (Call.label_here child)
  asm (Call.call (lbl s.label))
  asm (Call.lea_reg_label "rdi" "__data___thr_futex")
  asm (Call.mov_reg_mem "rax" "rdi" (pos 0) none 1)
  asm (Call.add_reg_imm "rax" (pos 1))
  asm (Call.mov_mem_reg "rdi" (pos 0) "rax" none 1)
  asm (Call.mov_reg_imm64 "rsi" (pos 1))
  asm (Call.mov_reg_imm64 "rdx" (pos 1))
  asm (Call.mov_reg_imm64 "rax" (pos 202))
  asm Call.syscall
  asm (Call.xor_reg_reg "rdi" "rdi")
  asm (Call.mov_reg_imm64 "rax" (pos 60))
  asm Call.syscall
  asm (Call.label_here parent)

unfoldable pub thread_join : Gen (Unit {0})
thread_join = do
  loop ← new_label "jw"
  done ← new_label "jd"
  asm (Call.mov_reg_imm64 "r14" (pos 0x30d40))
  asm (Call.label_here loop)
  asm (Call.lea_reg_label "rdi" "__data___thr_futex")
  asm (Call.mov_reg_mem "rax" "rdi" (pos 0) none 1)
  asm (Call.mov_reg_mem "rcx" "rdi" (pos 8) none 1)
  asm (Call.cmp_reg_reg "rax" "rcx")
  asm (Call.jcc "gt" done)
  asm (Call.cmp_reg_reg "rcx" "rax")
  asm (Call.jcc "below" done)
  asm (Call.lea_reg_label "rdi" "__data___thr_futex")
  asm (Call.xor_reg_reg "rsi" "rsi")
  asm (Call.mov_reg_mem "rdx" "rdi" (pos 0) none 1)
  asm (Call.xor_reg_reg "r10" "r10")
  asm (Call.mov_reg_imm64 "rax" (pos 202))
  asm Call.syscall
  asm (Call.dec_reg "r14")
  asm (Call.test_reg_reg "r14" "r14")
  asm (Call.jcc "eq" done)
  asm (Call.jmp loop)
  asm (Call.label_here done)
  asm (Call.lea_reg_label "rdi" "__data___thr_futex")
  asm (Call.mov_reg_mem "rax" "rdi" (pos 8) none 1)
  asm (Call.add_reg_imm "rax" (pos 1))
  asm (Call.mov_mem_reg "rdi" (pos 8) "rax" none 1)

unfoldable pub thread_join_all : Gen (Unit {0})
thread_join_all = do
  loop ← new_label "ja_w"
  done ← new_label "ja_d"
  asm (Call.mov_reg_imm64 "r14" (pos 0x7a120))
  asm (Call.label_here loop)
  asm (Call.lea_reg_label "rdi" "__data___thr_futex")
  asm (Call.mov_reg_mem "rax" "rdi" (pos 0) none 1)
  asm (Call.mov_reg_mem "rcx" "rdi" (pos 16) none 1)
  asm (Call.cmp_reg_reg "rax" "rcx")
  asm (Call.jcc "abe" done)
  asm (Call.xor_reg_reg "rsi" "rsi")
  asm (Call.mov_reg_mem "rdx" "rdi" (pos 0) none 1)
  asm (Call.xor_reg_reg "r10" "r10")
  asm (Call.mov_reg_imm64 "rax" (pos 202))
  asm Call.syscall
  asm (Call.dec_reg "r14")
  asm (Call.test_reg_reg "r14" "r14")
  asm (Call.jcc "eq" done)
  asm (Call.jmp loop)
  asm (Call.label_here done)

unfoldable pub thread_exit : System.ThreadExit → Gen (Unit {0})
thread_exit s = do
  asm (Call.lea_reg_label "rdi" "__data___thr_futex")
  asm (Call.mov_reg_mem "rax" "rdi" (pos 0) none 1)
  asm (Call.add_reg_imm "rax" (pos 1))
  asm (Call.mov_mem_reg "rdi" (pos 0) "rax" none 1)
  asm (Call.mov_reg_imm64 "rsi" (pos 1))
  asm (Call.mov_reg_imm64 "rdx" (pos 1))
  asm (Call.mov_reg_imm64 "rax" (pos 202))
  asm Call.syscall
  eval_or s.code "rdi" (asm (Call.xor_reg_reg "rdi" "rdi"))
  asm (Call.mov_reg_imm64 "rax" (pos 60))
  asm Call.syscall

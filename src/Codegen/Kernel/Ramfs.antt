-- ===== src/Codegen/Kernel/Ramfs.antt =====
-- ACLM/codegen.py: the file table in memory.
use aclmv.Prelude.{none, replicate}
use aclmv.Prelude.Int.{pos}
use aclmv.Ast.Kernel
use aclmv.Encoder.Call
use aclmv.Codegen.{Gen, ◌>>=◌, ◌>>◌, asm, resolve_name, new_label, reserve}
use aclmv.Codegen.Eval.{eval}

unfoldable pub kernel_ramfs_init : Gen (Unit {0})
kernel_ramfs_init = do
  reserve "__ramfs" (replicate 0x100 0)
  asm (Call.push_reg "rdi")
  asm (Call.push_reg "rcx")
  asm (Call.lea_reg_label "rdi" "__data___ramfs")
  asm (Call.mov_reg_imm64 "rcx" (pos 0x100))
  asm (Call.xor_reg_reg "rax" "rax")
  z ← new_label "rfz"
  asm (Call.label_here z)
  asm (Call.mov8_mem_reg "rdi" (pos 0) "rax" none 1)
  asm (Call.add_reg_imm "rdi" (pos 1))
  asm (Call.sub_reg_imm "rcx" (pos 1))
  asm (Call.test_reg_reg "rcx" "rcx")
  asm (Call.jcc "neq" z)
  asm (Call.pop_reg "rcx")
  asm (Call.pop_reg "rdi")

unfoldable pub kernel_ramfs_put : Kernel.KernelRamfsPut → Gen (Unit {0})
kernel_ramfs_put s = do
  reserve "__ramfs" (replicate 0x100 0)
  asm (Call.push_reg "r12")
  asm (Call.push_reg "r13")
  asm (Call.push_reg "r14")
  eval s.name "r12"
  eval s.data' "r13"
  eval s.length "r14"
  asm (Call.lea_reg_label "r15" "__data___ramfs")
  asm (Call.mov_reg_imm64 "rcx" (pos 8))
  fs ← new_label "rfs"
  found ← new_label "rff"
  done ← new_label "rfd"
  asm (Call.label_here fs)
  asm (Call.mov8_reg_mem "rax" "r15" (pos 0) none 1)
  asm (Call.test_reg_reg "rax" "rax")
  asm (Call.jcc "eq" found)
  asm (Call.add_reg_imm "r15" (pos 32))
  asm (Call.sub_reg_imm "rcx" (pos 1))
  asm (Call.test_reg_reg "rcx" "rcx")
  asm (Call.jcc "neq" fs)
  asm (Call.jmp done)
  asm (Call.label_here found)
  asm (Call.mov_reg_reg "rdi" "r15")
  asm (Call.mov_reg_reg "rsi" "r12")
  asm (Call.mov_reg_imm64 "rcx" (pos 15))
  cn ← new_label "rfc"
  asm (Call.label_here cn)
  asm (Call.mov8_reg_mem "rax" "rsi" (pos 0) none 1)
  asm (Call.mov8_mem_reg "rdi" (pos 0) "rax" none 1)
  asm (Call.test_reg_reg "rax" "rax")
  asm (Call.jcc "eq" done)
  asm (Call.add_reg_imm "rsi" (pos 1))
  asm (Call.add_reg_imm "rdi" (pos 1))
  asm (Call.sub_reg_imm "rcx" (pos 1))
  asm (Call.test_reg_reg "rcx" "rcx")
  asm (Call.jcc "neq" cn)
  asm (Call.xor_reg_reg "rax" "rax")
  asm (Call.mov8_mem_reg "rdi" (pos 0) "rax" none 1)
  asm (Call.label_here done)
  asm (Call.mov_mem_reg "r15" (pos 16) "r13" none 1)
  asm (Call.mov_mem_reg "r15" (pos 24) "r14" none 1)
  asm (Call.pop_reg "r14")
  asm (Call.pop_reg "r13")
  asm (Call.pop_reg "r12")

unfoldable pub kernel_ramfs_get : Kernel.KernelRamfsGet → Gen (Unit {0})
kernel_ramfs_get s = do
  dest ← resolve_name s.dest
  reserve "__ramfs" (replicate 0x100 0)
  asm (Call.push_reg "r12")
  asm (Call.push_reg "r13")
  asm (Call.push_reg "r14")
  eval s.name "r12"
  asm (Call.lea_reg_label "r13" "__data___ramfs")
  asm (Call.mov_reg_imm64 "rcx" (pos 8))
  loop ← new_label "rfgl"
  fail ← new_label "rfgf"
  ok ← new_label "rfgok"
  done ← new_label "rfgd"
  asm (Call.label_here loop)
  asm (Call.mov_reg_reg "rsi" "r13")
  asm (Call.mov_reg_reg "rdi" "r12")
  asm (Call.mov_reg_imm64 "r14" (pos 16))
  cmpl ← new_label "rfgc"
  asm (Call.label_here cmpl)
  asm (Call.mov8_reg_mem "rax" "rsi" (pos 0) none 1)
  asm (Call.mov8_reg_mem "rdx" "rdi" (pos 0) none 1)
  asm (Call.cmp_reg_reg "rax" "rdx")
  ne ← new_label "rfgne"
  asm (Call.jcc "neq" ne)
  asm (Call.test_reg_reg "rax" "rax")
  asm (Call.jcc "eq" ok)
  asm (Call.add_reg_imm "rsi" (pos 1))
  asm (Call.add_reg_imm "rdi" (pos 1))
  asm (Call.sub_reg_imm "r14" (pos 1))
  asm (Call.test_reg_reg "r14" "r14")
  asm (Call.jcc "neq" cmpl)
  asm (Call.jmp ok)
  asm (Call.label_here ne)
  asm (Call.add_reg_imm "r13" (pos 32))
  asm (Call.sub_reg_imm "rcx" (pos 1))
  asm (Call.test_reg_reg "rcx" "rcx")
  asm (Call.jcc "neq" loop)
  asm (Call.jmp fail)
  asm (Call.label_here ok)
  asm (Call.mov_reg_mem dest "r13" (pos 16) none 1)
  asm (Call.jmp done)
  asm (Call.label_here fail)
  asm (Call.xor_reg_reg dest dest)
  asm (Call.label_here done)
  asm (Call.pop_reg "r14")
  asm (Call.pop_reg "r13")
  asm (Call.pop_reg "r12")

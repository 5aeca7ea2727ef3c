-- ===== src/Codegen/Blocks.antt =====
-- ACLM/codegen.py: filling and copying blocks of memory.
use aclmv.Prelude.{none, [], ◌∷◌}
use aclmv.Prelude.Int.{pos}
use aclmv.Ast.System
use aclmv.Encoder.Call
use aclmv.Codegen.{Gen, ◌>>=◌, ◌>>◌, asm, resolve_name, move_unless, new_label, push_all}
use aclmv.Codegen.Eval.{eval}

unfoldable pub blast_fill : System.BlastFill → Gen (Unit {0})
blast_fill s = do
  dest ← resolve_name s.dest
  push_all ("r11" ∷ "r12" ∷ "r13" ∷ [])
  asm (Call.mov_reg_reg "r11" dest)
  eval s.byte_val "r15"
  asm (Call.mov_reg_reg "r12" "r15")
  eval s.length "r15"
  asm (Call.mov_reg_reg "r13" "r15")
  loop ← new_label "fill"
  done ← new_label "filld"
  asm (Call.label_here loop)
  asm (Call.test_reg_reg "r13" "r13")
  asm (Call.jcc "eq" done)
  asm (Call.mov8_mem_reg "r11" (pos 0) "r12" none 1)
  asm (Call.add_reg_imm "r11" (pos 1))
  asm (Call.sub_reg_imm "r13" (pos 1))
  asm (Call.jmp loop)
  asm (Call.label_here done)
  asm (Call.pop_reg "r13")
  asm (Call.pop_reg "r12")
  asm (Call.pop_reg "r11")

unfoldable pub blast_copy : System.BlastCopy → Gen (Unit {0})
blast_copy s = do
  dest ← resolve_name s.dest
  push_all ("r11" ∷ "r12" ∷ "r13" ∷ [])
  asm (Call.mov_reg_reg "r11" dest)
  eval s.src "r15"
  asm (Call.mov_reg_reg "r12" "r15")
  eval s.length "r15"
  asm (Call.mov_reg_reg "r13" "r15")
  loop ← new_label "copy"
  done ← new_label "copyd"
  asm (Call.label_here loop)
  asm (Call.test_reg_reg "r13" "r13")
  asm (Call.jcc "eq" done)
  asm (Call.mov8_reg_mem "r15" "r12" (pos 0) none 1)
  asm (Call.mov8_mem_reg "r11" (pos 0) "r15" none 1)
  asm (Call.add_reg_imm "r11" (pos 1))
  asm (Call.add_reg_imm "r12" (pos 1))
  asm (Call.sub_reg_imm "r13" (pos 1))
  asm (Call.jmp loop)
  asm (Call.label_here done)
  asm (Call.pop_reg "r13")
  asm (Call.pop_reg "r12")
  asm (Call.pop_reg "r11")

unfoldable pub blast_rep_fill : System.BlastRepFill → Gen (Unit {0})
blast_rep_fill s = do
  dest ← resolve_name s.dest
  push_all ("r11" ∷ "r12" ∷ "r13" ∷ [])
  asm (Call.mov_reg_reg "r11" dest)
  eval s.byte_val "r15"
  asm (Call.mov_reg_reg "r12" "r15")
  eval s.length "r15"
  asm (Call.mov_reg_reg "r13" "r15")
  asm (Call.mov_reg_reg "rdi" "r11")
  asm (Call.mov_reg_reg "rax" "r12")
  asm (Call.mov_reg_reg "rcx" "r13")
  asm Call.rep_stosb
  move_unless dest "r11"
  asm (Call.pop_reg "r13")
  asm (Call.pop_reg "r12")
  asm (Call.pop_reg "r11")

unfoldable pub blast_rep_copy : System.BlastRepCopy → Gen (Unit {0})
blast_rep_copy s = do
  dest ← resolve_name s.dest
  push_all ("r11" ∷ "r12" ∷ "r13" ∷ [])
  asm (Call.mov_reg_reg "r11" dest)
  eval s.src "r15"
  asm (Call.mov_reg_reg "r12" "r15")
  eval s.length "r15"
  asm (Call.mov_reg_reg "r13" "r15")
  asm (Call.mov_reg_reg "rdi" "r11")
  asm (Call.mov_reg_reg "rsi" "r12")
  asm (Call.mov_reg_reg "rcx" "r13")
  asm Call.rep_movsb
  move_unless dest "r11"
  asm (Call.pop_reg "r13")
  asm (Call.pop_reg "r12")
  asm (Call.pop_reg "r11")

-- ===== src/Codegen/Wire.antt =====
-- ACLM/codegen.py: operations on NUL-terminated strings.
use aclmv.Prelude.{none}
use aclmv.Prelude.Int.{pos}
use aclmv.Ast.System
use aclmv.Encoder.Call
use aclmv.Codegen.{Gen, ◌>>=◌, ◌>>◌, asm, resolve_name, new_label, on_option}
use aclmv.Codegen.Eval.{eval}

unfoldable pub wire_len : System.WireLen → Gen (Unit {0})
wire_len s = do
  dest ← resolve_name s.dest
  asm (Call.push_reg "r11")
  eval s.src "r15"
  asm (Call.mov_reg_reg "r11" "r15")
  asm (Call.xor_reg_reg dest dest)
  loop ← new_label "wlen"
  done ← new_label "wlend"
  asm (Call.label_here loop)
  asm (Call.mov8_reg_mem "r15" "r11" (pos 0) none 1)
  asm (Call.test_reg_reg "r15" "r15")
  asm (Call.jcc "eq" done)
  asm (Call.inc_reg dest)
  asm (Call.add_reg_imm "r11" (pos 1))
  asm (Call.jmp loop)
  asm (Call.label_here done)
  asm (Call.pop_reg "r11")

unfoldable pub wire_cmp : System.WireCmp → Gen (Unit {0})
wire_cmp s = do
  dest ← resolve_name s.dest
  asm (Call.push_reg "r11")
  asm (Call.push_reg "r12")
  asm (Call.push_reg "r13")
  eval s.left "r15"
  asm (Call.mov_reg_reg "r11" "r15")
  eval s.right "r15"
  asm (Call.mov_reg_reg "r12" "r15")
  loop ← new_label "wcmp"
  eq ← new_label "wcmpeq"
  ne ← new_label "wcmpne"
  done ← new_label "wcmpd"
  asm (Call.label_here loop)
  asm (Call.mov8_reg_mem "r13" "r11" (pos 0) none 1)
  asm (Call.mov8_reg_mem "r15" "r12" (pos 0) none 1)
  asm (Call.cmp_reg_reg "r13" "r15")
  asm (Call.jcc "neq" ne)
  asm (Call.test_reg_reg "r13" "r13")
  asm (Call.jcc "eq" eq)
  asm (Call.add_reg_imm "r11" (pos 1))
  asm (Call.add_reg_imm "r12" (pos 1))
  asm (Call.jmp loop)
  asm (Call.label_here eq)
  asm (Call.xor_reg_reg dest dest)
  asm (Call.jmp done)
  asm (Call.label_here ne)
  asm (Call.mov_reg_imm64 dest (pos 1))
  asm (Call.label_here done)
  asm (Call.pop_reg "r13")
  asm (Call.pop_reg "r12")
  asm (Call.pop_reg "r11")

unfoldable pub wire_copy : System.WireCopy → Gen (Unit {0})
wire_copy s = do
  asm (Call.push_reg "r11")
  asm (Call.push_reg "r12")
  eval s.dest "r15"
  asm (Call.mov_reg_reg "r11" "r15")
  eval s.src "r15"
  asm (Call.mov_reg_reg "r12" "r15")
  loop ← new_label "wcpy"
  done ← new_label "wcpyd"
  asm (Call.label_here loop)
  asm (Call.mov8_reg_mem "r15" "r12" (pos 0) none 1)
  asm (Call.mov8_mem_reg "r11" (pos 0) "r15" none 1)
  asm (Call.test_reg_reg "r15" "r15")
  asm (Call.jcc "eq" done)
  asm (Call.add_reg_imm "r11" (pos 1))
  asm (Call.add_reg_imm "r12" (pos 1))
  asm (Call.jmp loop)
  asm (Call.label_here done)
  asm (Call.pop_reg "r12")
  asm (Call.pop_reg "r11")

unfoldable pub wire_emit : System.WireEmit → Gen (Unit {0})
wire_emit s = do
  asm (Call.push_reg "r11")
  eval s.src "r15"
  asm (Call.mov_reg_reg "r11" "r15")
  on_option s.length (λ e. do eval e "r15"; asm (Call.mov_reg_reg "rdx" "r15"))
      (do
        asm (Call.xor_reg_reg "rdx" "rdx")
        loop ← new_label "weml"
        done ← new_label "wemld"
        asm (Call.label_here loop)
        asm (Call.mov8_reg_mem "r15" "r11" (pos 0) none 1)
        asm (Call.test_reg_reg "r15" "r15")
        asm (Call.jcc "eq" done)
        asm (Call.inc_reg "rdx")
        asm (Call.add_reg_imm "r11" (pos 1))
        asm (Call.jmp loop)
        asm (Call.label_here done)
        eval s.src "r15"
        asm (Call.mov_reg_reg "r11" "r15"))
  asm (Call.mov_reg_imm64 "rax" (pos 1))
  asm (Call.mov_reg_imm64 "rdi" (pos 1))
  asm (Call.mov_reg_reg "rsi" "r11")
  asm Call.syscall
  asm (Call.pop_reg "r11")

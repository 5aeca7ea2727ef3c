-- ===== src/Codegen/Locks.antt =====
-- ACLM/codegen.py: compare and exchange, and the spin lock.
use aclmv.Prelude.{String, str_eq, Bool, ◌&&◌, ◌||◌, if◌then◌else◌}
use aclmv.Prelude.Int.{pos}
use aclmv.Ast.System
use aclmv.Encoder.Call
use aclmv.Codegen.{Gen, ◌>>=◌, ◌>>◌, asm, when, differ, resolve_name, new_label}

-- `des in ("rax", "r11", "r13")`
abbrev in_use : String → Bool
in_use des = str_eq des "rax" || (str_eq des "r11" || str_eq des "r13")

unfoldable pub gate_cas : System.GateCas → Gen (Unit {0})
gate_cas s = do
  addr ← resolve_name s.addr
  exp ← resolve_name s.expected
  des ← resolve_name s.desired
  asm (Call.mov_reg_reg "r11" addr)
  let save_rax = differ addr "rax" && differ exp "rax"
  when save_rax (asm (Call.mov_reg_reg "r13" "rax"))
  when (in_use des) (asm (Call.mov_reg_reg "r12" des))
  let des_r = if in_use des then "r12" else des
  when (differ exp "rax") (asm (Call.mov_reg_reg "rax" exp))
  asm (Call.lock_cmpxchg_mem "r11" (pos 0) des_r)
  when (differ exp "rax") (asm (Call.mov_reg_reg exp "rax"))
  if str_eq addr "rax"
      then asm (Call.mov_reg_reg "rax" "r11")
      else when save_rax (asm (Call.mov_reg_reg "rax" "r13"))

unfoldable pub gate_spin : System.GateSpin → Gen (Unit {0})
gate_spin s = do
  addr ← resolve_name s.addr
  asm (Call.mov_reg_reg "r11" addr)
  let save_rax = differ addr "rax"
  when save_rax (asm (Call.mov_reg_reg "r13" "rax"))
  loop ← new_label "spin"
  asm (Call.label_here loop)
  asm (Call.xor_reg_reg "rax" "rax")
  asm (Call.mov_reg_imm64 "r12" (pos 1))
  asm (Call.lock_cmpxchg_mem "r11" (pos 0) "r12")
  asm (Call.jcc "neq" loop)
  if str_eq addr "rax"
      then asm (Call.mov_reg_reg "rax" "r11")
      else when save_rax (asm (Call.mov_reg_reg "rax" "r13"))

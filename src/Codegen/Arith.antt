-- ===== src/Codegen/Arith.antt =====
-- ACLM/codegen.py: arithmetic on a register or on a local variable.
use aclmv.Prelude.{String, str_eq, none, [], ◌∷◌, if◌then◌else◌, lookup, Assoc}
use aclmv.Prelude.Int.{ℤ, pos, wrap}
use aclmv.Ast.Expr.{Expr}
use aclmv.Ast.Cpu
use aclmv.Encoder.Call
use aclmv.Codegen.{
  not_implemented, Gen, ◌>>=◌, ◌>>◌, raise, get, asm, when, differ, resolve_name, on_option,
}
use aclmv.Codegen.Eval.{eval}

-- The operations of two registers, and the shifts by a constant and by cl.
abbrev alu_calls : Assoc (String → String → Call.Call)
alu_calls =
    ("add", Call.add_reg_reg)
    ∷ ("sub", Call.sub_reg_reg)
    ∷ ("and", Call.and_reg_reg)
    ∷ ("or", Call.or_reg_reg)
    ∷ ("xor", Call.xor_reg_reg)
    ∷ ("mul", Call.imul_reg_reg)
    ∷ []

abbrev shift_calls : Assoc ((String → ℤ → Call.Call) × (String → Call.Call))
shift_calls =
    ("shl", (Call.shl_reg_imm8, Call.shl_reg_cl))
    ∷ ("shr", (Call.shr_reg_imm8, Call.shr_reg_cl))
    ∷ ("sar", (Call.sar_reg_imm8, Call.sar_reg_cl))
    ∷ ("sal", (Call.sal_reg_imm8, Call.sal_reg_cl))
    ∷ ("rol", (Call.rol_reg_imm8, Call.rol_reg_cl))
    ∷ ("ror", (Call.ror_reg_imm8, Call.ror_reg_cl))
    ∷ ("rcl", (Call.rcl_reg_imm8, Call.rcl_reg_cl))
    ∷ ("rcr", (Call.rcr_reg_imm8, Call.rcr_reg_cl))
    ∷ []

-- The count goes through rcx, which is kept; when rcx is itself shifted, it is shifted in rax.
unfoldable pub shift_by_cl : (String → Call.Call) → String → String → Gen (Unit {0})
shift_by_cl f dst valreg =
    if str_eq dst "rcx"
    then (do
      asm (Call.push_reg "rax")
      asm (Call.mov_reg_reg "rax" "rcx")
      asm (Call.mov_reg_reg "rcx" valreg)
      asm (f "rax")
      asm (Call.mov_reg_reg "rcx" "rax")
      asm (Call.pop_reg "rax"))
    else (do
      asm (Call.push_reg "rcx")
      asm (Call.mov_reg_reg "rcx" valreg)
      asm (f dst)
      asm (Call.pop_reg "rcx"))

unfoldable pub shift :
    (String → ℤ → Call.Call) → (String → Call.Call) → Expr → String → String → Gen (Unit {0})
unfolding shift_by_cl
shift f_imm f_cl (Expr.number v) dst valreg = asm (f_imm dst (pos (wrap 64 v)))
shift f_imm f_cl _ dst valreg = shift_by_cl f_cl dst valreg

unfoldable pub divide : String → String → String → Gen (Unit {0})
divide result dst valreg = do
  asm (Call.push_reg "rax")
  asm (Call.push_reg "rdx")
  asm (Call.mov_reg_reg "rax" dst)
  asm Call.cqo
  asm (Call.idiv_reg valreg)
  asm (Call.mov_reg_reg valreg result)
  asm (Call.pop_reg "rdx")
  asm (Call.pop_reg "rax")
  asm (Call.mov_reg_reg dst valreg)

-- The operation of `_cpu_bin` other than `set`, with the value in `valreg`.
unfoldable pub operate : String → Expr → String → String → Gen (Unit {0})
operate op value dst valreg =
    on_option (lookup op alu_calls) (λ f. asm (f dst valreg))
      (on_option (lookup op shift_calls) (λ p. shift p.0 p.1 value dst valreg)
        (if str_eq op "div"
          then divide "rax" dst valreg
          else (if str_eq op "mod" then divide "rdx" dst valreg else raise (not_implemented op))))

abbrev bin_local : Cpu.CpuBin → ℤ → Gen (Unit {0})
bin_local s off = do
  when (differ s.op "set") (asm (Call.mov_reg_mem "r11" "rbp" off none 1))
  if str_eq s.op "set"
      then eval s.value "r11"
      else (do eval s.value "r12"; operate s.op s.value "r11" "r12")
  asm (Call.mov_mem_reg "rbp" off "r11" none 1)

abbrev bin_register : Cpu.CpuBin → Gen (Unit {0})
bin_register s = do
  dst ← resolve_name s.dest
  if str_eq s.op "set"
      then eval s.value dst
      else (do eval s.value "r15"; operate s.op s.value dst "r15")

unfoldable pub cpu_bin : Cpu.CpuBin → Gen (Unit {0})
cpu_bin s = do
  g ← get
  on_option (lookup s.dest g.fn_locals) (λ off. bin_local s off) (bin_register s)

abbrev unary_calls : Assoc (String → Call.Call)
unary_calls =
    ("not", Call.not_reg)
    ∷ ("neg", Call.neg_reg)
    ∷ ("inc", Call.inc_reg)
    ∷ ("dec", Call.dec_reg)
    ∷ []

unfoldable pub unary_call : String → String → Gen (Unit {0})
unary_call op dst =
    on_option (lookup op unary_calls) (λ f. asm (f dst)) (raise (not_implemented op))

unfoldable pub cpu_unary : Cpu.CpuUnary → Gen (Unit {0})
cpu_unary s = do
  g ← get
  on_option (lookup s.dest g.fn_locals)
      (λ off. do
        asm (Call.mov_reg_mem "r11" "rbp" off none 1)
        unary_call s.op "r11"
        asm (Call.mov_mem_reg "rbp" off "r11" none 1))
      (do dst ← resolve_name s.dest; unary_call s.op dst)

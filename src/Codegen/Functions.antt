-- ===== src/Codegen/Functions.antt =====
-- ACLM/codegen.py: system calls, calls, functions and signal handlers.
use aclmv.Prelude.{
  ℕ, ◌+◌, ◌-◌, ◌*◌, ◌/◌, String, true, false, not, List, [], ◌∷◌, if◌then◌else◌, insert, Assoc,
  length,
}
use aclmv.Prelude.Int.{ℤ, pos, negsuc}
use aclmv.Ast.Expr.{Expr}
use aclmv.Ast.Program
use aclmv.Encoder.Call
use aclmv.Prelude.{reverse, take, ◌==◌}
use aclmv.Prelude.Text.{codes, lower, find}
use aclmv.Ast.Expr.{SysNum}
use aclmv.Codegen.{
  userland_only, unknown_syscall, pure, Gen, ◌>>=◌, ◌>>◌, skip, raise, get, set, asm, when,
  for_each, on_option, push_all, pop_all, lbl,
}
use aclmv.Codegen.Eval.{eval, eval_or}

-- SYSCALL_ARGS of regs.py, and the registers of the arguments of a function.
abbrev pub syscall_args : List String
syscall_args = "rdi" ∷ "rsi" ∷ "rdx" ∷ "r10" ∷ "r8" ∷ "r9" ∷ []

abbrev pub call_args : List String
call_args = "rdi" ∷ "rsi" ∷ "rdx" ∷ "rcx" ∷ "r8" ∷ "r9" ∷ []

-- NAMED_SYSCALLS
abbrev pub named_syscalls : Assoc ℕ
named_syscalls =
    ("read", 0)
    ∷ ("write", 1)
    ∷ ("open", 2)
    ∷ ("close", 3)
    ∷ ("lseek", 8)
    ∷ ("seek", 8)
    ∷ ("mmap", 9)
    ∷ ("mprotect", 10)
    ∷ ("munmap", 11)
    ∷ ("exit", 60)
    ∷ ("exit_group", 231)
    ∷ ("getpid", 39)
    ∷ ("fork", 57)
    ∷ ("wait4", 61)
    ∷ ("nanosleep", 35)
    ∷ ("clock_gettime", 228)
    ∷ ("socket", 41)
    ∷ ("connect", 42)
    ∷ ("sendto", 44)
    ∷ ("recvfrom", 45)
    ∷ ("bind", 49)
    ∷ ("listen", 50)
    ∷ ("ioctl", 16)
    ∷ ("brk", 12)
    ∷ []

-- The operands go to the stack through a temporary, and then into their registers, the last one first.
unfoldable pub push_args : String → List Expr → Gen (Unit {0})
unfolding ◌>>=◌
push_args tmp args = for_each args λ e. do eval e tmp; asm (Call.push_reg tmp)

unfoldable pub pass_args : String → List String → List Expr → Gen (Unit {0})
unfolding push_args
pass_args tmp regs args = do
  push_args tmp (take 6 args)
  pop_all (reverse (take (length (take 6 args)) regs))

unfoldable pub syscall_number : SysNum → Gen ℤ
syscall_number (SysNum.literal v) = pure v
syscall_number (SysNum.named name) =
    on_option (find (lower (codes name)) named_syscalls) (λ n. pure (pos n))
      (raise (unknown_syscall name))

-- rcx and r11, which the processor overwrites, are kept.
unfoldable pub syscall : Program.SysCall → Gen (Unit {0})
syscall s = do
  g ← get
  when g.baremetal (raise userland_only)
  num ← syscall_number s.num
  pass_args "r15" syscall_args s.args
  asm (Call.mov_reg_imm64 "rax" num)
  asm (Call.push_reg "rcx")
  asm (Call.push_reg "r11")
  asm Call.syscall
  asm (Call.pop_reg "r11")
  asm (Call.pop_reg "rcx")

unfoldable pub call : Program.Call → Gen (Unit {0})
call s = do pass_args "r11" call_args s.args; asm (Call.call (lbl s.label))

abbrev pub callee_saved : List String
callee_saved = "rbx" ∷ "r12" ∷ "r13" ∷ "r14" ∷ []

unfoldable pub fn_epilogue : Gen (Unit {0})
fn_epilogue = do
  asm (Call.mov_reg_reg "rsp" "rbp")
  asm (Call.sub_reg_imm "rsp" (pos 32))
  pop_all (reverse callee_saved)
  asm (Call.pop_reg "rbp")
  asm Call.ret

-- `(size + 7) & ~7` and `(total + 15) & ~15`
abbrev pub round_up : ℕ → ℕ → ℕ
round_up m n = (n + (m - 1)) / m * m

-- The loop over `locals_`: the table of the offsets from rbp, and the total size.
unfoldable pub place_locals : ℕ → Assoc ℤ → List (String × ℕ) → Assoc ℤ × ℕ
place_locals total table [] = (table, total)
place_locals total table ((name, size) ∷ rest) =
    let total' = total + round_up 8 size in
    place_locals total' (insert name (negsuc (31 + total')) table) rest

abbrev pub arg_table : List String → List String → Assoc String → Assoc String
arg_table [] regs t = t
arg_table (a ∷ names) [] t = t
arg_table (a ∷ names) (r ∷ regs) t = arg_table names regs (insert a r t)

-- `_emit_fn` up to the body. The source computes the table of the locals twice, and only the second one counts.
unfoldable pub enter_fn : String → List String → List (String × ℕ) → Gen (Unit {0})
enter_fn name args locals = do
  asm (Call.label_here (lbl name))
  asm (Call.push_reg "rbp")
  asm (Call.mov_reg_reg "rbp" "rsp")
  push_all callee_saved
  let frame = place_locals 0 [] locals
  let total = round_up 16 frame.1
  set λ g. record g { fn_locals = frame.0 }
  when (not (total == 0)) (asm (Call.sub_reg_imm "rsp" (pos total)))
  set λ g. record g { in_fn = true; fn_args = arg_table args call_args [] }

-- `_emit_fn` behind the body.
unfoldable pub leave_fn : Gen (Unit {0})
leave_fn = do set λ g. record g { in_fn = false; fn_locals = []; fn_args = [] }; fn_epilogue

unfoldable pub emit_ret : Gen (Unit {0})
emit_ret = do g ← get; if g.in_fn then fn_epilogue else asm Call.ret

unfoldable pub ret_val : Program.RetVal → Gen (Unit {0})
ret_val s = do eval_or s.value "rax" skip; emit_ret

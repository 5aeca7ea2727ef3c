-- ===== src/Codegen/Signals.antt =====
-- ACLM/codegen.py: `_sig_action`.
use aclmv.Prelude.{
  ℕ, ◌+◌, ◌-◌, ◌*◌, Bool, true, false, not, ◌&&◌, none, List, [], ◌∷◌, if◌then◌else◌,
}
use aclmv.Prelude.Int.{ℤ, pos, sub_ℕ}
use aclmv.Ast.System
use aclmv.Encoder.Call
use aclmv.Prelude.{leb, ◌==◌}
use aclmv.Prelude.Text.{codes}
use aclmv.Codegen.{Gen, ◌>>◌, asm, lbl}
use aclmv.Codegen.Eval.{eval}

abbrev is_digit : ℕ → Bool
is_digit c = leb 48 c && leb c 57

-- `str.lstrip("-")`
unfoldable strip_minus : List ℕ → List ℕ
strip_minus [] = []
strip_minus (c ∷ s) = let rest = strip_minus s in if c == 45 then rest else c ∷ s

-- `str.isdigit`, for texts of ASCII characters.
unfoldable all_digits : List ℕ → Bool
all_digits [] = true
all_digits (c ∷ s) = is_digit c && all_digits s

abbrev isdigit : List ℕ → Bool
isdigit [] = false
isdigit (c ∷ s) = all_digits (c ∷ s)

unfoldable value_from : ℕ → List ℕ → ℕ
value_from n [] = n
value_from n (c ∷ s) = value_from (n * 10 + (c - 48)) s

-- `int(text, 0)` of digits: no leading zero, unless the value is 0.
abbrev digits_value : List ℕ → ℕ
digits_value [] = 0
digits_value (c ∷ s) = if c == 48 then 0 else value_from 0 (c ∷ s)

-- `int(handler, 0)` of a text that is digits behind its signs, or 0 where it raises: two signs, or no digit.
unfoldable pub handler_value : List ℕ → ℤ
unfolding all_digits value_from
handler_value [] = pos 0
handler_value (c ∷ s) =
    if c == 45
    then (if isdigit s then sub_ℕ 0 (digits_value s) else pos 0)
    else pos (digits_value (c ∷ s))

-- Whether the handler is the name of a label.
unfoldable pub names_label : List ℕ → Bool
unfolding strip_minus all_digits
names_label [] = false
names_label (c ∷ s) = not (isdigit (strip_minus (c ∷ s)))

unfoldable pub sig_action : System.SigAction → Gen (Unit {0})
sig_action s = do
  eval s.signo "r12"
  (if names_label (codes s.handler)
      then asm (Call.lea_reg_label "r13" (lbl s.handler))
      else asm (Call.mov_reg_imm64 "r13" (handler_value (codes s.handler))))
  asm (Call.sub_reg_imm "rsp" (pos 32))
  asm (Call.mov_mem_reg "rsp" (pos 0) "r13" none 1)
  asm (Call.xor_reg_reg "rax" "rax")
  asm (Call.mov_mem_reg "rsp" (pos 8) "rax" none 1)
  asm (Call.mov_mem_reg "rsp" (pos 16) "rax" none 1)
  asm (Call.mov_mem_reg "rsp" (pos 24) "rax" none 1)
  asm (Call.mov_reg_reg "rdi" "r12")
  asm (Call.mov_reg_reg "rsi" "rsp")
  asm (Call.xor_reg_reg "rdx" "rdx")
  asm (Call.mov_reg_imm64 "r10" (pos 8))
  asm (Call.mov_reg_imm64 "rax" (pos 13))
  asm Call.syscall
  asm (Call.add_reg_imm "rsp" (pos 32))

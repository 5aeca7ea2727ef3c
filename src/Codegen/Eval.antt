-- ===== src/Codegen/Eval.antt =====
-- ACLM/codegen.py: `_eval`, which leaves the value of an operand in a register.
use aclmv.Prelude.{ℕ, String, str_eq, not, Option, none, some, if◌then◌else◌, lookup, has}
use aclmv.Prelude.Int.{ℤ, pos}
use aclmv.Ast.Expr.{Expr}
use aclmv.Encoder.Call
use aclmv.Codegen.{
  Generator, Gen, Struct, pure, on_option, ◌>>=◌, ◌>>◌, asm, raise, get, resolve_name, move_unless,
  data_label, unknown_identifier, unknown_struct, unknown_field, unsupported_operator, bad_operand,
}

-- A name that is neither an argument, a local nor a constant.
abbrev pub eval_data : Generator → String → String → Gen (Unit {0})
eval_data g name dst =
    if has name g.data_layout
    then asm (Call.lea_reg_label dst (data_label name))
    else on_option (lookup name g.structs) (λ t. asm (Call.mov_reg_imm64 dst (pos t.size)))
        (raise (unknown_identifier name))

abbrev pub eval_const : Generator → String → String → Option ℤ → Gen (Unit {0})
eval_const g name dst (some v) =
    if not (has name g.string_lens) then asm (Call.mov_reg_imm64 dst v) else eval_data g name dst
eval_const g name dst none = eval_data g name dst

abbrev pub eval_local : Generator → String → String → Option ℤ → Gen (Unit {0})
eval_local g name dst (some off) = asm (Call.mov_reg_mem dst "rbp" off none 1)
eval_local g name dst none = eval_const g name dst (lookup name g.data_consts)

abbrev pub eval_arg : Generator → String → String → Option String → Gen (Unit {0})
eval_arg g name dst (some src) = move_unless dst src
eval_arg g name dst none = eval_local g name dst (lookup name g.fn_locals)

unfoldable pub eval_ident : String → String → Gen (Unit {0})
unfolding ◌>>=◌ get
eval_ident name dst = do g ← get; eval_arg g name dst (lookup name g.fn_args)

abbrev pub field_of : String → String → Option Struct → Gen ℕ
field_of st name none = raise (unknown_struct st)
field_of st name (some t) =
    on_option (lookup name t.fields) (λ off. pure off) (raise (unknown_field st name))

-- `self.structs[struct]["fields"][field]`, with the errors of a missing name.
unfoldable pub field_offset : String → String → Gen ℕ
unfolding ◌>>=◌ get
field_offset st name = do g ← get; field_of st name (lookup st g.structs)

-- The instruction for an operator of an expression.
unfoldable pub combine : String → Gen (Unit {0})
combine op =
    if str_eq op "+"
    then asm (Call.add_reg_reg "r11" "r12")
    else (if str_eq op "-"
        then asm (Call.sub_reg_reg "r11" "r12")
        else (if str_eq op "*"
            then asm (Call.imul_reg_reg "r11" "r12")
            else raise (unsupported_operator op)))

unfoldable pub eval : Expr → String → Gen (Unit {0})
unfolding eval_ident field_offset combine ◌>>=◌
eval (Expr.number v) dst = asm (Call.mov_reg_imm64 dst v)
eval (Expr.reg name) dst = do src ← resolve_name name; move_unless dst src
eval (Expr.ident name) dst = eval_ident name dst
eval (Expr.struct_field_ref st name) dst = do
  off ← field_offset st name
  asm (Call.mov_reg_imm64 dst (pos off))
eval (Expr.bin_expr op left right) dst = do
  eval left "r11"
  asm (Call.push_reg "r11")
  eval right "r12"
  asm (Call.pop_reg "r11")
  combine op
  move_unless dst "r11"
eval (Expr.string s) dst = raise bad_operand

-- `if e is not None: self._eval(e, dst)`, and otherwise `m`.
unfoldable pub eval_or : Option Expr → String → Gen (Unit {0}) → Gen (Unit {0})
unfolding eval
eval_or (some e) dst m = eval e dst
eval_or none dst m = m

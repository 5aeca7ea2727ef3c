-- ===== src/Codegen/Machine.antt =====
-- The processor, as far as the code of an operand reaches: the general registers, and the stack as a list of words.
-- `frame` is the memory at rbp plus an offset, and `address` the address of a label; both stay as they are.
pub mod Calls
pub mod Operands
pub mod Correct
use aclmv.Prelude.{
  ℕ, ◌+◌, ◌-◌, ◌*◌, ◌%◌, ◌^◌, String, str_eq, Option, none, some, List, [], ◌∷◌, if◌then◌else◌,
  lookup, Assoc, has, not, Bool, true, false, ◌||◌,
}
use aclmv.Prelude.Int.{ℤ, pos, wrap}
use aclmv.Prelude.Text.{codes}
use aclmv.Regs.{Resolution, register, reserved_register, unknown_register, resolve}
use aclmv.Ast.Expr.{Expr}
use aclmv.Encoder.Call
use aclmv.Codegen.{Generator, Struct, data_label}

pub record Machine : Type 0 where
  pub regs : String → ℕ
  pub stack : List ℕ

abbrev pub put : String → ℕ → Machine → Machine
put r v m = record m { regs = λ x. if str_eq x r then v else m.regs x }

module _ (frame : ℤ → ℕ) (address : String → ℕ) where
  abbrev pop_into : String → List ℕ → Machine → Option Machine
  pop_into r [] m = none
  pop_into r (v ∷ vs) m = some (put r v (record m { stack = vs }))

  -- The instructions that `_eval` uses. A load is one of a local variable.
  unfoldable pub exec : Call.Call → Machine → Option Machine
  exec (Call.mov_reg_imm64 d v) m = some (put d (wrap (2 ^ 64) v) m)
  exec (Call.mov_reg_reg d s) m = some (put d (m.regs s) m)
  exec (Call.mov_reg_mem d base off none scale) m =
      if str_eq base "rbp" then some (put d (frame off) m) else none
  exec (Call.lea_reg_label d name) m = some (put d (address name) m)
  exec (Call.push_reg r) m = some (record m { stack = m.regs r ∷ m.stack })
  exec (Call.pop_reg r) m = pop_into r m.stack m
  exec (Call.add_reg_reg d s) m = some (put d ((m.regs d + m.regs s) % 2 ^ 64) m)
  exec (Call.sub_reg_reg d s) m = some (put d ((m.regs d + (2 ^ 64 - m.regs s)) % 2 ^ 64) m)
  exec (Call.imul_reg_reg d s) m = some (put d (m.regs d * m.regs s % 2 ^ 64) m)
  exec _ m = none

  abbrev pub then_run : Option Machine → (Machine → Option Machine) → Option Machine
  then_run none f = none
  then_run (some m) f = f m

  unfoldable pub run : List Call.Call → Machine → Option Machine
  unfolding exec
  run [] m = some m
  run (c ∷ cs) m = then_run (exec c m) (run cs)

  -- The value of an operand for the program that is compiled. A name that is not found has the value 0.
  abbrev pub size_of : Option Struct → ℕ
  size_of none = 0
  size_of (some t) = wrap (2 ^ 64) (pos t.size)

  abbrev pub name_value : Generator → String → ℕ
  name_value g name =
      if has name g.data_layout then address (data_label name) else size_of (lookup name g.structs)

  abbrev pub const_value : Generator → String → Option ℤ → ℕ
  const_value g name none = name_value g name
  const_value g name (some v) =
      if not (has name g.string_lens) then wrap (2 ^ 64) v else name_value g name

  abbrev pub local_value : Generator → String → Option ℤ → ℕ
  local_value g name none = const_value g name (lookup name g.data_consts)
  local_value g name (some off) = frame off

  abbrev pub ident_value : Generator → Machine → String → Option String → ℕ
  ident_value g m name none = local_value g name (lookup name g.fn_locals)
  ident_value g m name (some r) = m.regs r

  abbrev pub reg_value : Machine → Resolution → ℕ
  reg_value m (register r) = m.regs r
  reg_value m reserved_register = 0
  reg_value m unknown_register = 0

  abbrev or_zero : Option ℕ → ℕ
  or_zero none = 0
  or_zero (some off) = off

  abbrev pub offset_in : String → Option Struct → ℕ
  offset_in name none = 0
  offset_in name (some t) = or_zero (lookup name t.fields)

  abbrev pub apply : String → ℕ → ℕ → ℕ
  apply op a b =
      if str_eq op "+"
      then (a + b) % 2 ^ 64
      else (if str_eq op "-" then (a + (2 ^ 64 - b)) % 2 ^ 64 else a * b % 2 ^ 64)

  unfoldable pub value : Generator → Machine → Expr → ℕ
  value g m (Expr.number v) = wrap (2 ^ 64) v
  value g m (Expr.string s) = 0
  value g m (Expr.reg name) = reg_value m (resolve (codes name))
  value g m (Expr.ident name) = ident_value g m name (lookup name g.fn_args)
  value g m (Expr.struct_field_ref st name) =
      wrap (2 ^ 64) (pos (offset_in name (lookup st g.structs)))
  value g m (Expr.bin_expr op left right) = apply op (value g m left) (value g m right)

-- No operand is r12, which the code of an operation overwrites: user code has it as reg10.
abbrev pub names_r12 : Resolution → Bool
names_r12 (register r) = str_eq r "r12"
names_r12 reserved_register = false
names_r12 unknown_register = false

unfoldable pub uses_r12 : Expr → Bool
uses_r12 (Expr.reg name) = names_r12 (resolve (codes name))
uses_r12 (Expr.bin_expr op left right) = uses_r12 left || uses_r12 right
uses_r12 _ = false

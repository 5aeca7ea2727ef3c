-- ===== src/Codegen/Machine/Operands.antt =====
-- The operands of `_eval` other than operations, and what their values depend on.
use aclmv.Prelude.{
  List, ℕ, ◌≡◌, ◌≢◌, ◌^◌, refl, sym, ap, ap₂, String, eq_iff, false, not, Bool-cases, Option, none,
  some, Option-cases, inl, inr, lookup, has, arith,
}
use aclmv.Prelude.Int.{ℤ, pos, wrap}
use aclmv.Prelude.Text.{codes}
use aclmv.Regs.{Resolution, register, reserved_register, unknown_register, resolve}
use aclmv.Regs.Laws.{resolve-safe}
use aclmv.Ast.Expr.{Expr}
use aclmv.Encoder.{Assembler, ok, reg_num}
use aclmv.Encoder.Call
use aclmv.Codegen.{
  Generator, Struct, done, ◌>>=◌, pure, raise, get, unknown_identifier, asm, resolved, resolve_name,
  move_unless, on_option,
}
use aclmv.Codegen.Eval.{
  eval, eval_ident, eval_arg, eval_local, eval_const, eval_data, field_of, field_offset,
}
use aclmv.Codegen.Traced.{run-inv}
use aclmv.Codegen.Machine.{
  Machine, exec, value, reg_value, ident_value, size_of, name_value, const_value, local_value,
  names_r12, offset_in, apply, uses_r12,
}
use aclmv.Codegen.Machine.Calls.{Lands, Lands-one, Lands-move, Lands-value}

module _ (frame : ℤ → ℕ) (address : String → ℕ) where
  pub Lands-reg :
      (name dst : String) (g g' : Generator) (a : Unit {0})
      → eval (Expr.reg name) dst g ≡ done a g'
      → Lands frame address g g' dst (λ m. value frame address g m (Expr.reg name))
  unfolding eval resolve_name value pure raise
  Lands-reg name dst g g' a h =
      let (src, t, e, k) = run-inv (resolve_name name) (λ src. move_unless dst src) g g' a h in
      go (resolve (codes name)) src t e k
    where
      go :
          (r : Resolution) (src : String) (t : Generator)
          → resolved name r g ≡ done src t
          → move_unless dst src t ≡ done a g'
          → Lands frame address g g' dst (λ m. reg_value frame address m r)
      go (register p) src t e k =
          let same : g ≡ t = cc in
          let q : p ≡ src = cc in rw (same, q) (Lands-move frame address dst src t g' a k)
      go reserved_register src t e k = cc
      go unknown_register src t e k = cc

  pub Lands-size :
      (name dst : String) (g g' : Generator) (a : Unit {0}) (o : Option Struct)
      → on_option o
          (λ t. asm (Call.mov_reg_imm64 dst (pos t.size)))
          (raise (unknown_identifier name))
          g
        ≡ done a g'
      → Lands frame address g g' dst (λ m. size_of frame address o)
  unfolding on_option raise exec
  Lands-size name dst g g' a none h = cc
  Lands-size name dst g g' a (some t) h = Lands-one frame address _ g g' a dst _ (λ m. refl) h

  pub Lands-data :
      (name dst : String) (g g' : Generator) (a : Unit {0})
      → eval_data g name dst g ≡ done a g'
      → Lands frame address g g' dst (λ m. name_value frame address g name)
  unfolding exec
  Lands-data name dst g g' a h = elim (Bool-cases (has name g.data_layout)) [
    | inl e ↦ rw e (Lands-one frame address _ g g' a dst _ (λ m. refl) (rw e at h))
    | inr e ↦ rw e (Lands-size name dst g g' a (lookup name g.structs) (rw e at h))
  ]

  pub Lands-const :
      (name dst : String) (g g' : Generator) (a : Unit {0}) (o : Option ℤ)
      → eval_const g name dst o g ≡ done a g'
      → Lands frame address g g' dst (λ m. const_value frame address g name o)
  unfolding exec
  Lands-const name dst g g' a none h = Lands-data name dst g g' a h
  Lands-const name dst g g' a (some v) h = elim (Bool-cases (not (has name g.string_lens))) [
    | inl e ↦ rw e (Lands-one frame address _ g g' a dst _ (λ m. refl) (rw e at h))
    | inr e ↦ rw e (Lands-data name dst g g' a (rw e at h))
  ]

  pub Lands-local :
      (name dst : String) (g g' : Generator) (a : Unit {0}) (o : Option ℤ)
      → eval_local g name dst o g ≡ done a g'
      → Lands frame address g g' dst (λ m. local_value frame address g name o)
  unfolding exec
  Lands-local name dst g g' a none h = Lands-const name dst g g' a _ h
  Lands-local name dst g g' a (some off) h = Lands-one frame address _ g g' a dst _ (λ m. refl) h

  pub Lands-arg :
      (name dst : String) (g g' : Generator) (a : Unit {0}) (o : Option String)
      → eval_arg g name dst o g ≡ done a g'
      → Lands frame address g g' dst (λ m. ident_value frame address g m name o)
  Lands-arg name dst g g' a none h = Lands-local name dst g g' a _ h
  Lands-arg name dst g g' a (some src) h = Lands-move frame address dst src g g' a h

  pub Lands-ident :
      (name dst : String) (g g' : Generator) (a : Unit {0})
      → eval_ident name dst g ≡ done a g'
      → Lands frame address g g' dst (λ m. value frame address g m (Expr.ident name))
  unfolding eval_ident get ◌>>=◌ value
  Lands-ident name dst g g' a h = Lands-arg name dst g g' a (lookup name g.fn_args) h

  pub field-inv :
      (name st : String) (o : Option Struct) (g t : Generator) (off : ℕ)
      → field_of st name o g ≡ done off t
      → (g ≡ t) × (offset_in frame address name o ≡ off)
  unfolding pure raise on_option
  field-inv name st none g t off h = cc
  field-inv name st (some s) g t off h = elim (Option-cases (lookup name s.fields)) [
    | inl e ↦ let k = rw e at h in absurd (cc)
    | inr (x, e) ↦ let k = rw e at h in rw e (cc, cc)
  ]

  pub Lands-field :
      (st name dst : String) (g g' : Generator) (a : Unit {0})
      → eval (Expr.struct_field_ref st name) dst g ≡ done a g'
      → Lands frame address g g' dst (λ m. value frame address g m (Expr.struct_field_ref st name))
  unfolding eval field_offset get ◌>>=◌ value exec
  Lands-field st name dst g g' a h =
      let (off, t, e, k) =
        run-inv (field_of st name (lookup st g.structs))
          (λ off. asm (Call.mov_reg_imm64 dst (pos off))) g g' a h in
      let (same, p) = field-inv name st (lookup st g.structs) g t off e in
      Lands-value frame address (λ m. ap (λ x. wrap (2 ^ 64) (pos x)) (sym p))
        (rw same (
          Lands-one frame address (Call.mov_reg_imm64 dst (pos off)) t g' a dst
            (λ m. wrap (2 ^ 64) (pos off)) (λ m. refl) k))

  -- The values do not depend on the assembler and the history of its calls, and not on r11 and r12.
  pub value-asm :
      (e : Expr) (g : Generator) (t : Assembler) (cs : List Call.Call) (m : Machine)
      → value frame address (record g { asm' = t; called = cs }) m e ≡ value frame address g m e
  unfolding value
  value-asm (Expr.number v) g t cs m = refl
  value-asm (Expr.string s) g t cs m = refl
  value-asm (Expr.reg s) g t cs m = refl
  value-asm (Expr.ident s) g t cs m = refl
  value-asm (Expr.struct_field_ref s f) g t cs m = refl
  value-asm (Expr.bin_expr op l r) g t cs m =
      ap₂ (apply frame address op) (value-asm l g t cs m) (value-asm r g t cs m)

  pub resolved-not_r11 : (name p : String) → resolve (codes name) ≡ register p → p ≢ "r11"
  unfolding reg_num lookup
  resolved-not_r11 name p h q =
      let (n, e, _, _, other, _) = resolve-safe (codes name) p h in
      let e' : reg_num "r11" ≡ ok n = rw q at e in other (cc)

  -- No argument of the function stands in r11 or r12.
  abbrev pub ArgsApart : Generator → Type 0
  ArgsApart g = (name r : String) → lookup name g.fn_args ≡ some r → (r ≢ "r11") × (r ≢ "r12")

  pub value-agree :
      (e : Expr) (g : Generator) (m m' : Machine)
      → ArgsApart g
      → uses_r12 e ≡ false
      → ((r : String) → r ≢ "r11" → r ≢ "r12" → m'.regs r ≡ m.regs r)
      → value frame address g m' e ≡ value frame address g m e
  unfolding value uses_r12
  value-agree (Expr.number v) g m m' args h same = refl
  value-agree (Expr.string s) g m m' args h same = refl
  value-agree (Expr.reg name) g m m' args h same = go (resolve (codes name)) refl h
    where
      go :
          (r : Resolution)
          → resolve (codes name) ≡ r
          → names_r12 r ≡ false
          → reg_value frame address m' r ≡ reg_value frame address m r
      go (register p) e k =
          same p (resolved-not_r11 name p e) λ q. let t = (eq_iff p "r12").1 q in absurd (cc)
      go reserved_register e k = refl
      go unknown_register e k = refl
  value-agree (Expr.ident name) g m m' args h same = elim (Option-cases (lookup name g.fn_args)) [
    | inl e ↦ rw e refl
    | inr (r, e) ↦ rw e (same r (args name r e).0 (args name r e).1)
  ]
  value-agree (Expr.struct_field_ref s f) g m m' args h same = refl
  value-agree (Expr.bin_expr op l r) g m m' args h same =
      ap₂ (apply frame address op) (value-agree l g m m' args (ground arith) same)
        (value-agree r g m m' args (ground arith) same)

-- ===== src/Codegen/Machine/Correct.antt =====
-- `_eval` computes the value of its operand.
use aclmv.Prelude.{
  [], ℕ, ◌≡◌, ◌≢◌, ◌∙◌, refl, ap, ap₂, String, str_eq, eq_iff, false, Bool-cases, some, inl, inr,
  List, ◌∷◌, ◌++◌, arith,
}
use aclmv.Prelude.Int.{ℤ}
use aclmv.Ast.Expr.{Expr}
use aclmv.Encoder.{Assembler, ok}
use aclmv.Encoder.Call
use aclmv.Encoder.Emits.{bind_ok}
use aclmv.Encoder.Program.{perform, assemble}
use aclmv.Codegen.{Generator, done, raise, asm, move_unless}
use aclmv.Codegen.Eval.{eval, combine}
use aclmv.Codegen.Traced.{run-inv, asm-call, assemble-append, history-append}
use aclmv.Codegen.Machine.{Machine, put, exec, run, value, apply, uses_r12}
use aclmv.Codegen.Machine.Calls.{
  put-same, put-other, Only, asm-Only, run-append, Lands, Lands-one, Lands-move, Lands-value,
}
use aclmv.Codegen.Machine.Operands.{
  Lands-field, value-agree, Lands-reg, Lands-ident, ArgsApart, value-asm,
}

module _ (frame : ℤ → ℕ) (address : String → ℕ) where
  combine-inv :
      (op : String) (g g' : Generator) (a : Unit {0})
      → combine op g ≡ done a g'
      → (c : Call.Call) × (asm c g ≡ done a g')
        × ((m : Machine)
            → exec frame address c m
              ≡ some (put "r11" (apply frame address op (m.regs "r11") (m.regs "r12")) m))
  unfolding combine exec raise
  combine-inv op g g' a h = elim (Bool-cases (str_eq op "+")) [
    | inl e ↦ (Call.add_reg_reg "r11" "r12", rw e at h, λ m. rw e refl)
    | inr e ↦ elim (Bool-cases (str_eq op "-")) [
      | inl e' ↦ (Call.sub_reg_reg "r11" "r12", rw (e, e') at h, λ m. rw (e, e') refl)
      | inr e' ↦ elim (Bool-cases (str_eq op "*")) [
        | inl e'' ↦ (Call.imul_reg_reg "r11" "r12", rw (e, e', e'') at h, λ m. rw (e, e') refl)
        | inr e'' ↦ let k = rw (e, e', e'') at h in absurd (cc)
      ]
    ]
  ]

  Only-trans : (g h k : Generator) → Only g h → Only h k → Only g k
  Only-trans g h k p q =
      q ∙ ap {A = Generator} (λ x. record x { asm' = k.asm'; called = k.called }) p

  assemble-cons :
      (c : Call.Call) (cs : List Call.Call) (g t : Generator) (s : Assembler)
      → asm c g ≡ done tt t
      → assemble cs t.asm' ≡ ok (tt, s)
      → assemble (c ∷ cs) g.asm' ≡ ok (tt, s)
  unfolding assemble
  assemble-cons c cs g t s h k = bind_ok (perform c) (λ _. assemble cs) (asm-call c g t tt h).0 ∙ k

  history-cons :
      (c : Call.Call) (cs : List Call.Call) (g t : Generator) {d : List Call.Call}
      → asm c g ≡ done tt t
      → d ≡ t.called ++ cs
      → d ≡ g.called ++ (c ∷ cs)
  history-cons c cs g t h k = history-append g.called (c ∷ []) cs (asm-call c g t tt h).1 k

  run-step :
      (c : Call.Call) (cs : List Call.Call) (m t : Machine)
      → exec frame address c m ≡ some t
      → run frame address (c ∷ cs) m ≡ run frame address cs t
  unfolding run
  run-step c cs m t e = rw e refl

  exec-pop :
      (r : String) (v : ℕ) (vs : List ℕ) (m : Machine)
      → m.stack ≡ v ∷ vs
      → exec frame address (Call.pop_reg r) m ≡ some (put r v (record m { stack = vs }))
  unfolding exec
  exec-pop r v vs m h = rw h refl

  apart : (a b : String) → str_eq a b ≡ false → a ≢ b
  apart a b h q = let t = (eq_iff a b).1 q in absurd (cc)

  -- The code of an operation, from the parts of its sequence.
  Lands-bin :
      (op dst : String) (g g1 g2 g3 g4 g5 g' : Generator) (f h : Machine → ℕ)
      → Lands frame address g g1 "r11" f
      → asm (Call.push_reg "r11") g1 ≡ done tt g2
      → Lands frame address g2 g3 "r12" h
      → asm (Call.pop_reg "r11") g3 ≡ done tt g4
      → combine op g4 ≡ done tt g5
      → move_unless dst "r11" g5 ≡ done tt g'
      → ((m m' : Machine)
          → ((r : String) → r ≢ "r11" → r ≢ "r12" → m'.regs r ≡ m.regs r)
          → h m' ≡ h m)
      → Lands frame address g g' dst (λ m. apply frame address op (f m) (h m))
  unfolding run exec
  Lands-bin op dst g g1 g2 g3 g4 g5 g' f h left push right pop comb move agree =
      let (c, asm_c, exec_c) = combine-inv op g4 g5 tt comb in
      let mv = Lands-move frame address dst "r11" g5 g' tt move in
      let back : List Call.Call = Call.pop_reg "r11" ∷ c ∷ mv.calls in
      record {
        calls =
            left.calls
            ++ (Call.push_reg "r11" ∷ (right.calls ++ (Call.pop_reg "r11" ∷ c ∷ mv.calls)));
        made = history-append g.called left.calls _ left.made (
            history-cons _ _ g1 g2 push (
              history-append g2.called right.calls _ right.made
                (history-cons _ _ g3 g4 pop (history-cons c mv.calls g4 g5 asm_c mv.made))));
        assembled = assemble-append left.calls _ g.asm' g1.asm' g'.asm' left.assembled (
            assemble-cons _ _ g1 g2 g'.asm' push (
              assemble-append right.calls _ g2.asm' g3.asm' g'.asm' right.assembled (
                assemble-cons _ _ g3 g4 g'.asm' pop
                  (assemble-cons c mv.calls g4 g5 g'.asm' asm_c mv.assembled))));
        only = Only-trans g g1 g' left.only (
            Only-trans g1 g2 g' (asm-Only _ g1 g2 tt push) (
              Only-trans g2 g3 g' right.only (
                Only-trans g3 g4 g' (asm-Only _ g3 g4 tt pop)
                  (Only-trans g4 g5 g' (asm-Only c g4 g5 tt asm_c) mv.only))));
        at = λ m.
            let (m1, r1, s1, v1, o1) = left.at m in
            let mp : Machine = record m1 { stack = m1.regs "r11" ∷ m1.stack } in
            let (m3, r3, s3, v3, o3) = right.at mp in
            let m4 : Machine = put "r11" (m1.regs "r11") (record m3 { stack = m1.stack }) in
            let m5 : Machine =
              put "r11" (apply frame address op (m4.regs "r11") (m4.regs "r12")) m4 in
            let (m6, r6, s6, v6, o6) = mv.at m5 in
            (
              m6,
              run-append frame address left.calls (Call.push_reg "r11" ∷ (right.calls ++ back)) m m1
                    r1
                  ∙ run-step (Call.push_reg "r11") (right.calls ++ back) m1 mp refl
                  ∙ run-append frame address right.calls back mp m3 r3
                  ∙ run-step (Call.pop_reg "r11") (c ∷ mv.calls) m3 m4
                      (exec-pop "r11" (m1.regs "r11") m1.stack m3 s3)
                  ∙ run-step c mv.calls m4 m5 (exec_c m4)
                  ∙ r6,
              s6 ∙ s1,
              v6
                  ∙ put-same "r11" (apply frame address op (m4.regs "r11") (m4.regs "r12")) m4
                  ∙ ap₂ (apply frame address op)
                      (put-same "r11" (m1.regs "r11") (record m3 { stack = m1.stack }) ∙ v1)
                      (put-other "r11" "r12" (m1.regs "r11") (record m3 { stack = m1.stack })
                          (apart "r12" "r11" refl)
                        ∙ v3
                        ∙ agree m mp (λ r p q. o1 r p p q)),
              λ r p q w.
                  o6 r p q w
                  ∙ put-other "r11" r (apply frame address op (m4.regs "r11") (m4.regs "r12")) m4 q
                  ∙ put-other "r11" r (m1.regs "r11") (record m3 { stack = m1.stack }) q
                  ∙ o3 r w q w
                  ∙ o1 r q q w,
            );
      }

  -- When `_eval` returns, the calls that it has made leave the value of the operand in the register, the
  -- stack as it was, and every other register but r11 and r12 as it was. The operand does not read r12, and no
  -- argument of the function stands in r11 or r12; then the order of evaluation and the temporaries do not show.
  pub eval_lem :
      (e : Expr) (dst : String) (g g' : Generator)
      → ArgsApart frame address g
      → uses_r12 e ≡ false
      → eval e dst g ≡ done tt g'
      → Lands frame address g g' dst (λ m. value frame address g m e)
  unfolding eval value exec uses_r12 raise
  eval_lem (Expr.number v) dst g g' args safe h =
      Lands-one frame address _ g g' tt dst _ (λ m. refl) h
  eval_lem (Expr.string s) dst g g' args safe h = cc
  eval_lem (Expr.reg name) dst g g' args safe h = Lands-reg frame address name dst g g' tt h
  eval_lem (Expr.ident name) dst g g' args safe h = Lands-ident frame address name dst g g' tt h
  eval_lem (Expr.struct_field_ref st name) dst g g' args safe h =
      Lands-field frame address st name dst g g' tt h
  eval_lem (Expr.bin_expr op left right) dst g g' args safe h =
      let (_, g1, e1, k1) = run-inv (eval left "r11") _ g g' tt h in
      let (_, g2, e2, k2) = run-inv (asm (Call.push_reg "r11")) _ g1 g' tt k1 in
      let (_, g3, e3, k3) = run-inv (eval right "r12") _ g2 g' tt k2 in
      let (_, g4, e4, k4) = run-inv (asm (Call.pop_reg "r11")) _ g3 g' tt k3 in
      let (_, g5, e5, e6) = run-inv (combine op) _ g4 g' tt k4 in
      let l = eval_lem left "r11" g g1 args (ground arith) e1 in
      let o2 = Only-trans g g1 g2 l.only (asm-Only _ g1 g2 tt e2) in
      let args2 : ArgsApart frame address g2 =
        let same_args : g2.fn_args ≡ g.fn_args = ap (λ (x : Generator). x.fn_args) o2 in
        λ name r e. args name r (rw same_args at e) in
      let r = eval_lem right "r12" g2 g3 args2 (ground arith) e3 in
      let same : (m : Machine) → value frame address g2 m right ≡ value frame address g m right =
        λ m.
          ap (λ x. value frame address x m right) o2
          ∙ value-asm frame address right g g2.asm' g2.called m in
      Lands-bin op dst g g1 g2 g3 g4 g5 g' _ _ l e2 (Lands-value frame address same r) e4 e5 e6
        λ m m' agree. value-agree frame address right g m m' args (ground arith) agree

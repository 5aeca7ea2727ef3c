-- ===== src/Codegen/Traced/Arith.antt =====
-- The handlers of codegen.py push and pop in balance: Arith.
use aclmv.Prelude.{ℕ, ◌≡◌, refl, String, some}
use aclmv.Prelude.Int.{ℤ}
use aclmv.Ast.Expr.{Expr}
use aclmv.Ast.Cpu
use aclmv.Encoder.Call
use aclmv.Codegen.Arith
use aclmv.Codegen.Traced.{Traced, Traced-asm, Traced-lookup, depth_after, traced_rules}
use aclmv.Codegen.Traced.Eval.{Traced-eval}

pub Traced-shift_by_cl :
    {d : ℕ} (f : String → Call.Call) (dst valreg : String)
    → ((e : ℕ) (r : String) → depth_after (f r) e ≡ some e)
    → Traced d (Arith.shift_by_cl f dst valreg) d
unfolding Arith.shift_by_cl
Traced-shift_by_cl f dst valreg h = search (traced_rules, h) depth 40

Traced-shift :
    {d : ℕ} (f : String → ℤ → Call.Call) (f_cl : String → Call.Call) (e : Expr)
    (dst valreg : String)
    → ((x : ℕ) (r : String) (v : ℤ) → depth_after (f r v) x ≡ some x)
    → ((x : ℕ) (r : String) → depth_after (f_cl r) x ≡ some x)
    → Traced d (Arith.shift f f_cl e dst valreg) d
unfolding Arith.shift
Traced-shift f f_cl (Expr.number v) dst valreg h k = Traced-asm _ (h _ dst _)
Traced-shift f f_cl (Expr.reg v) dst valreg h k = Traced-shift_by_cl f_cl dst valreg k
Traced-shift f f_cl (Expr.ident v) dst valreg h k = Traced-shift_by_cl f_cl dst valreg k
Traced-shift f f_cl (Expr.string v) dst valreg h k = Traced-shift_by_cl f_cl dst valreg k
Traced-shift f f_cl (Expr.struct_field_ref a b) dst valreg h k =
    Traced-shift_by_cl f_cl dst valreg k
Traced-shift f f_cl (Expr.bin_expr op a b) dst valreg h k = Traced-shift_by_cl f_cl dst valreg k

pub Traced-divide :
    {d : ℕ} (a0 : String) (a1 : String) (a2 : String) → Traced d (Arith.divide a0 a1 a2) d
unfolding Arith.divide
Traced-divide a0 a1 a2 = search traced_rules depth 120 fits 4000

pub Traced-operate :
    {d : ℕ} (op : String) (value : Expr) (dst valreg : String)
    → Traced d (Arith.operate op value dst valreg) d
unfolding Arith.operate
Traced-operate op value dst valreg =
    Traced-lookup _ op _
      (
        Traced-asm _ refl,
        (
          Traced-asm _ refl,
          (Traced-asm _ refl, (Traced-asm _ refl, (Traced-asm _ refl, (Traced-asm _ refl, tt)))),
        ),
      )
      (Traced-lookup _ op _
        (
          Traced-shift _ _ value dst valreg (λ x r v. refl) (λ x r. refl),
          (
            Traced-shift _ _ value dst valreg (λ x r v. refl) (λ x r. refl),
            (
              Traced-shift _ _ value dst valreg (λ x r v. refl) (λ x r. refl),
              (
                Traced-shift _ _ value dst valreg (λ x r v. refl) (λ x r. refl),
                (
                  Traced-shift _ _ value dst valreg (λ x r v. refl) (λ x r. refl),
                  (
                    Traced-shift _ _ value dst valreg (λ x r v. refl) (λ x r. refl),
                    (
                      Traced-shift _ _ value dst valreg (λ x r v. refl) (λ x r. refl),
                      (Traced-shift _ _ value dst valreg (λ x r v. refl) (λ x r. refl), tt),
                    ),
                  ),
                ),
              ),
            ),
          ),
        )
        (search (traced_rules, Traced-divide) depth 20))

pub Traced-cpu_bin : {d : ℕ} (s : Cpu.CpuBin) → Traced d (Arith.cpu_bin s) d
unfolding Arith.cpu_bin
Traced-cpu_bin s = search (traced_rules, Traced-eval, Traced-operate) depth 120 fits 4000

pub Traced-unary_call : {d : ℕ} (op dst : String) → Traced d (Arith.unary_call op dst) d
unfolding Arith.unary_call
Traced-unary_call op dst =
    Traced-lookup _ op _
      (Traced-asm _ refl, (Traced-asm _ refl, (Traced-asm _ refl, (Traced-asm _ refl, tt))))
      (search traced_rules)

pub Traced-cpu_unary : {d : ℕ} (s : Cpu.CpuUnary) → Traced d (Arith.cpu_unary s) d
unfolding Arith.cpu_unary
Traced-cpu_unary s = search (traced_rules, Traced-unary_call) depth 120 fits 4000

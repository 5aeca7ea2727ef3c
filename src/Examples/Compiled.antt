-- ===== src/Examples/Compiled.antt =====
-- A jump, a sum, a fill and a few variables through the code generator.
use aclmv.Prelude.{ℕ, ◌≡◌, refl, false, String, List, [], ◌∷◌, length, lookup}
use aclmv.Prelude.Int.{pos}
use aclmv.Ast.Expr.{Expr, Size}
use aclmv.Ast.Stmt.{Stmt, at, Nodes, nil, cons}
use aclmv.Encoder.{init}
use aclmv.Encoder
use aclmv.Encoder.Flow
use aclmv.Encoder.{skip as no_calls, label, emit, reg_num}
use aclmv.Encoder.Move.{mov_reg_imm64, mov_reg_reg, mov_imm, emit_imm32}
use aclmv.Encoder.Arith.{add_reg_reg, xor_reg_reg, binop_reg_reg}
use aclmv.Encoder.Program.{perform}
use aclmv.Codegen.{Generator, done, ◌>>=◌, skip, asm, resolve_name}
use aclmv.Codegen.Eval.{eval, combine}
use aclmv.Codegen.Generate.{start}
use aclmv.Codegen.Emit.{emit_stmt}
use aclmv.Codegen.Traced.{Traced}
use aclmv.Codegen.Traced.Emit.{Traced-emit_stmt}
use aclmv.Codegen.Machine.{value, uses_r12}
use aclmv.Codegen.Machine.Calls.{Lands}
use aclmv.Codegen.Machine.Operands.{ArgsApart}
use aclmv.Codegen.Machine.Correct.{eval_lem}
use aclmv.Prelude.Text.{is_in, strip, lower_char, find}
use aclmv.Regs.{resolve}
use aclmv.Encoder.Call
use aclmv.Codegen.LinkTable.{LinkTable}
use aclmv.Codegen.Basic
use aclmv.Codegen.Isa

-- A loop that does nothing, the address of a byte, and a bound on the code.
abbrev looping : Nodes
looping = cons (at 1 1 (Stmt.data_bytes (record { name = "d"; values = 7 ∷ [] }))) (
    cons (at 2 1 (Stmt.label (record { name = "a" }))) (
      cons (at 3 1 (Stmt.goto (record { label = "a" }))) (
        cons (at 4 1 (Stmt.cpu_lea_rip (record { dest = "reg1"; label = "d" })))
          (cons (at 5 1 (Stmt.assert_size (record { what = "code"; limit = 22 }))) nil))))

abbrev looped : Generator
looped = record start {
  asm' = record {
    code =
        0xe9 ∷ 251 ∷ 255 ∷ 255 ∷ 255 ∷ 0x48 ∷ 0x8d ∷ 5 ∷ 10 ∷ 0 ∷ 0 ∷ 0 ∷ 0xb8 ∷ 60 ∷ 0 ∷ 0 ∷ 0
        ∷ 0x48 ∷ 0x31 ∷ 0xff ∷ 0x0f ∷ 5 ∷ [];
    labels = ("__lbl_a", 0) ∷ [];
    relocs =
        record { offset = 1; target = "__lbl_a"; kind = "rel32"; size = 4 }
        ∷ record { offset = 8; target = "__data_d"; kind = "rel32"; size = 4 }
        ∷ [];
    deterministic = false;
  };
  data_layout = ("d", 0) ∷ [];
  data_bytes = 7 ∷ [];
  string_lens = ("d", 1) ∷ [];
  assert_sizes = ("code", 22) ∷ [];
  line_entries = (0, 1) ∷ (0, 2) ∷ (0, 3) ∷ (5, 4) ∷ (12, 5) ∷ [];
  called =
      Call.label_here "__lbl_a"
      ∷ Call.jmp "__lbl_a"
      ∷ Call.lea_reg_label "rax" "__data_d"
      ∷ Call.mov_reg_imm64 "rax" (pos 60)
      ∷ Call.xor_reg_reg "rdi" "rdi"
      ∷ Call.syscall
      ∷ [];
}

-- reg1 + 2, into rax
abbrev sum : Expr
sum = Expr.bin_expr "+" (Expr.reg "reg1") (Expr.number (pos 2))

abbrev summed : Generator
summed = record start {
  asm' = record {
    code =
        0x49 ∷ 0x89 ∷ 0xc3 ∷ 0x41 ∷ 0x53 ∷ 0x41 ∷ 0xbc ∷ 2 ∷ 0 ∷ 0 ∷ 0 ∷ 0x41 ∷ 0x5b ∷ 0x4d ∷ 1
        ∷ 0xe3 ∷ 0x4c ∷ 0x89 ∷ 0xd8 ∷ [];
    labels = [];
    relocs = [];
    deterministic = false;
  };
  called =
      Call.mov_reg_reg "r11" "rax"
      ∷ Call.push_reg "r11"
      ∷ Call.mov_reg_imm64 "r12" (pos 2)
      ∷ Call.pop_reg "r11"
      ∷ Call.add_reg_reg "r11" "r12"
      ∷ Call.mov_reg_reg "rax" "r11"
      ∷ [];
}

eval-sum : eval sum "rax" start ≡ done tt summed
unfolding eval resolve_name resolve is_in strip lower_char find asm perform mov_reg_reg
    Encoder.◌>>=◌ Encoder.lift reg_num emit Flow.push_reg mov_reg_imm64 Flow.pop_reg add_reg_reg
    combine binop_reg_reg mov_imm emit_imm32 lookup Encoder.u8 Encoder.u32 Encoder.rex Encoder.modrm
    no_calls skip ◌>>=◌
eval-sum = refl

sum-avoids_r12 : uses_r12 sum ≡ false
unfolding uses_r12 resolve is_in strip lower_char find
sum-avoids_r12 = refl

no_arguments : ArgsApart (λ off. 0) (λ name. 0) start
unfolding lookup
no_arguments name r e = absurd (cc)

eval_lem_example :
    Lands (λ off. 0) (λ name. 0) start summed "rax" (λ m. value (λ off. 0) (λ name. 0) start m sum)
eval_lem_example =
    eval_lem (λ off. 0) (λ name. 0) sum "rax" start summed no_arguments sum-avoids_r12 eval-sum

-- Eight bytes at the address in reg1, each 255.
abbrev fill : Stmt
fill =
    Stmt.blast_fill
      (record { dest = "reg1"; byte_val = Expr.number (pos 255); length = Expr.number (pos 8) })

Traced-emit_stmt_example : Traced 3 (emit_stmt fill) 3
Traced-emit_stmt_example = Traced-emit_stmt {d = 3} fill refl

abbrev two_locals : List (String × ℕ)
two_locals = ("a", 1) ∷ ("b", 8) ∷ []

-- A word, padding and a buffer.
abbrev two_variables : Nodes
two_variables = cons (at 1 1 (Stmt.data_bytes (record { name = "a"; values = 7 ∷ [] }))) (
    cons (at 2 1 (Stmt.data_align (record { align = 4 })))
      (cons (at 3 1 (Stmt.data_alloc (record { name = "b"; size = Size.of_bytes 3 }))) nil))

abbrev laid_out : Generator
laid_out = record start {
  data_layout = ("a", 0) ∷ ("b", 4) ∷ [];
  data_bytes = 7 ∷ 0 ∷ 0 ∷ 0 ∷ 0 ∷ 0 ∷ 0 ∷ [];
  string_lens = ("a", 1) ∷ [];
}

-- ===== src/Codegen/Traced/Operands.antt =====
-- Calls whose operands are register names of the program, as `_emit` makes them for a single instruction.
use aclmv.Prelude.{ℕ, ◌≡◌, String, some}
use aclmv.Encoder.Call
use aclmv.Codegen.{asm1, asm2, asm3}
use aclmv.Codegen.Traced.{Traced, depth_after, Traced-bind, Traced-asm, Traced-resolve_name}

module _ {d : ℕ} where
  pub Traced-asm1 :
      (f : String → Call.Call) (a : String)
      → ((x : String) → depth_after (f x) d ≡ some d)
      → Traced d (asm1 f a) d
  Traced-asm1 f a h = Traced-bind (Traced-resolve_name a) λ x. Traced-asm (f x) (h x)

  pub Traced-asm2 :
      (f : String → String → Call.Call) (a b : String)
      → ((x y : String) → depth_after (f x y) d ≡ some d)
      → Traced d (asm2 f a b) d
  Traced-asm2 f a b h = Traced-bind (Traced-resolve_name a) λ x. Traced-asm1 (f x) b (h x)

  pub Traced-asm3 :
      (f : String → String → String → Call.Call) (a b c : String)
      → ((x y z : String) → depth_after (f x y z) d ≡ some d)
      → Traced d (asm3 f a b c) d
  Traced-asm3 f a b c h = Traced-bind (Traced-resolve_name a) λ x. Traced-asm2 (f x) b c (h x)

-- ===== src/Codegen/Traced/Isa.antt =====
-- The single instructions push and pop in balance, but for the flag and frame instructions that move the stack.
use aclmv.Prelude.{
  ℕ, ◌≡◌, refl, String, str_eq, Bool, true, false, some, [], ◌∷◌, if◌then◌else◌, Assoc, All, lookup,
  has, Bool-cases, inl, inr,
}
use aclmv.Ast.Isa
use aclmv.Encoder.Call
use aclmv.Codegen.Traced.Operands.{Traced-asm1, Traced-asm2}
use aclmv.Codegen.{Gen, ◌>>=◌, pure, raise, on_option}
use aclmv.Codegen.Isa as Instructions
use aclmv.Codegen.Isa.{method}
use aclmv.Codegen.Traced.{Traced, Traced-asm, Traced-if, depth_after}

-- A step that calls a method by its name: whichever entry of the table it is, or an error.
pub Traced-method :
    {V : Type 0} {d e : ℕ} (t : Assoc V) (key : String) (k : V → Gen (Unit {0}))
    → All (λ p. Traced d (k p.1) e) t
    → Traced d (method t key >>= k) e
unfolding method lookup on_option ◌>>=◌ pure raise
Traced-method [] key k h = record { at = λ g g' b p. absurd (cc) }
Traced-method ((name, v) ∷ t) key k (hv, hs) = elim (Bool-cases (str_eq name key)) [
  | inl q ↦ record { at = λ g g' b p. hv.at g g' b (rw q at p) }
  | inr q ↦ record { at = λ g g' b p. (Traced-method t key k hs).at g g' b (rw q at p) }
]

pub Traced-priv_op : {d : ℕ} (s : Isa.CpuPrivOp) → Traced d (Instructions.priv_op s) d
Traced-priv_op s =
    Traced-if (has s.op Instructions.priv_reg_calls)
      (Traced-method _ s.op _ (
        (Traced-asm1 _ _ λ _. refl),
        ((Traced-asm1 _ _ λ _. refl), ((Traced-asm1 _ _ λ _. refl), tt)),
      ))
      (Traced-method _ s.op _ (
        Traced-asm _ refl,
        (
          Traced-asm _ refl,
          (
            Traced-asm _ refl,
            (
              Traced-asm _ refl,
              (
                Traced-asm _ refl,
                (
                  Traced-asm _ refl,
                  (Traced-asm _ refl, (Traced-asm _ refl, (Traced-asm _ refl, tt))),
                ),
              ),
            ),
          ),
        ),
      ))

pub Traced-bit_imm : {d : ℕ} (s : Isa.CpuBitImm) → Traced d (Instructions.bit_imm s) d
Traced-bit_imm s = Traced-method _ s.op _ (
  (Traced-asm1 _ _ λ _. refl),
  ((Traced-asm1 _ _ λ _. refl), ((Traced-asm1 _ _ λ _. refl), ((Traced-asm1 _ _ λ _. refl), tt))),
)

pub Traced-bit_op : {d : ℕ} (s : Isa.CpuBitOp) → Traced d (Instructions.bit_op s) d
Traced-bit_op s = Traced-method _ s.op _ (
  (Traced-asm2 _ _ _ λ _ _. refl),
  ((Traced-asm2 _ _ _ λ _ _. refl), ((Traced-asm2 _ _ _ λ _ _. refl), tt)),
)

pub Traced-fs_gs :
    {d : ℕ} (s : Isa.CpuFsGs)
    → Traced d (Instructions.by_name1 Instructions.fs_gs_calls s.op s.reg) d
Traced-fs_gs s = Traced-method _ s.op _ (
  (Traced-asm1 _ _ λ _. refl),
  ((Traced-asm1 _ _ λ _. refl), ((Traced-asm1 _ _ λ _. refl), ((Traced-asm1 _ _ λ _. refl), tt))),
)

-- A choice between two calls that leave the stack alone.
pub calls-depth :
    {d : ℕ} (b : Bool) (c c' : Call.Call)
    → depth_after c d ≡ some d
    → depth_after c' d ≡ some d
    → depth_after (if b then c else c') d ≡ some d
calls-depth true c c' h k = h
calls-depth false c c' h k = k

pub methods-depth :
    {d : ℕ} (b : Bool) (f f' : String → Call.Call) (r : String)
    → depth_after (f r) d ≡ some d
    → depth_after (f' r) d ≡ some d
    → depth_after ((if b then f else f') r) d ≡ some d
methods-depth true f f' r h k = h
methods-depth false f f' r h k = k

pub methods2-depth :
    {d : ℕ} (b : Bool) (f f' : String → String → Call.Call) (r t : String)
    → depth_after (f r t) d ≡ some d
    → depth_after (f' r t) d ≡ some d
    → depth_after ((if b then f else f') r t) d ≡ some d
methods2-depth true f f' r t h k = h
methods2-depth false f f' r t h k = k

-- ===== src/Codegen.antt =====
-- ACLM/codegen.py: the state of the code generator, and the helpers of its handlers.
-- A method that the generator calls on its assembler is a value of `Encoder.Call`, and `asm` calls it. The
-- attributes that only the listing reads (`_frame_diagrams`, `_section_hints`, `_listing_lines`) are left out.
pub mod Eval
pub mod Memory
pub mod Arith
pub mod Locks
pub mod Functions
pub mod Signals
pub mod Isa
pub mod Basic
pub mod Blocks
pub mod Wire
pub mod Cells
pub mod Net
pub mod Threads
pub mod Kernel
pub mod Emit
pub mod Data
pub mod Generate
pub mod Traced
pub mod Called
pub mod Layout
pub mod Stored
pub mod DataLayout
pub mod Machine
pub mod Asserts
pub mod Images
pub mod LinkTable
pub mod Linked
use aclmv.Prelude.{
  ℕ, zero, suc, ◌+◌, ◌/◌, ◌%◌, String, str_append, str_eq, Bool, true, false, not, Option, none,
  some, List, [], ◌∷◌, ◌++◌, if◌then◌else◌, length, get_elem?, Assoc, lookup, insert, has, ltb,
}
use aclmv.Prelude.Int.{ℤ}
use aclmv.Prelude.Text.{codes}
use aclmv.Regs.{Resolution, register, reserved_register, unknown_register, resolve}
use aclmv.Encoder.{Error, Result, ok, err, Assembler}
use aclmv.Encoder.Call.{Call}
use aclmv.Encoder.Program.{perform}

-- The exceptions that end a compilation, by the message's kind.
pub data Fault : Type 0 where
  encoder : Error → Fault
  bad_register : Resolution → String → Fault
  unknown_identifier : String → Fault
  unknown_struct : String → Fault
  unknown_field : String → String → Fault
  unknown_size : String → Fault
  unsupported_operator : String → Fault
  bad_operand : Fault
  bad_memory_base : Fault
  non_constant_offset : Fault
  userland_only : Fault
  unknown_syscall : String → Fault
  not_implemented : String → Fault
  unsupported_node : Fault
  assert_failed : String → ℕ → ℕ → Fault
  no_attribute : String → Fault
  zero_division : Fault
  not_a_byte : Fault

-- An entry of `self.structs`.
pub record Struct : Type 0 where
  pub fields : Assoc ℕ
  pub size : ℕ

-- An entry of `_assert_bytes`: the name, the limit, the operator, the length of the code.
pub record ByteAssert : Type 0 where
  pub name : String
  pub limit : ℕ
  pub op : String
  pub code_off : ℕ

-- `emitted` holds the names of the attributes (`_irq0_emitted` and the like) that a handler has set. `called` is no
-- attribute of the source: it is the history of the calls of methods of `self.asm`, which only theorems read.
pub record Generator : Type 0 where
  pub asm' : Assembler
  pub data_layout : Assoc ℕ
  pub data_bytes : List ℕ
  pub data_consts : Assoc ℤ
  pub string_lens : Assoc ℕ
  pub label_i : ℕ
  pub emit_listing : Bool
  pub teach_mode : Bool
  pub deterministic : Bool
  pub assert_bytes : List ByteAssert
  pub assert_sizes : List (String × ℕ)
  pub teach_map : List (ℕ × ℕ)
  pub baremetal : Bool
  pub debug_dwarf : Bool
  pub use_wx : Bool
  pub needs_thr_futex : Bool
  pub line_entries : List (ℕ × ℕ)
  pub structs : Assoc Struct
  pub fn_locals : Assoc ℤ
  pub fn_args : Assoc String
  pub in_fn : Bool
  pub emitted : List String
  pub called : List Call

-- A method of the generator returns with a new state, or raises.
pub data Outcome (A : Type 0) : Type 0 where
  done : A → Generator → Outcome A
  fault : Fault → Outcome A

abbrev pub Gen : Type 0 → Type 0
Gen A = Generator → Outcome A

infixl 5 ◌>>=◌ ◌>>◌
unfoldable pub ◌>>=◌ : {A B : Type 0} → Gen A → (A → Gen B) → Gen B
◌>>=◌ m f g = elim (m g) [ done a g' ↦ f a g' | fault x ↦ fault x ]

abbrev pub ◌>>◌ : {B : Type 0} → Gen (Unit {0}) → Gen B → Gen B
m >> n = m >>= λ _. n

unfoldable pub pure : {A : Type 0} → A → Gen A
pure a g = done a g

unfoldable pub skip : Gen (Unit {0})
unfolding pure
skip = pure tt

unfoldable pub raise : {A : Type 0} → Fault → Gen A
raise x g = fault x

unfoldable pub get : Gen Generator
get g = done g g

unfoldable pub set : (Generator → Generator) → Gen (Unit {0})
set f g = done tt (f g)

abbrev pub when : Bool → Gen (Unit {0}) → Gen (Unit {0})
when c m = if c then m else skip

-- A split on an optional value.
unfoldable pub on_option : {A B : Type 0} → Option A → (A → Gen B) → Gen B → Gen B
on_option (some a) f m = f a
on_option none f m = m

unfoldable pub for_each : {A : Type 0} → List A → (A → Gen (Unit {0})) → Gen (Unit {0})
unfolding ◌>>=◌
for_each [] f = skip
for_each (x ∷ xs) f = do f x; for_each xs f

-- What comes back from a method of `self.asm`.
abbrev performed : Generator → Result (Unit {0} × Assembler) → Outcome (Unit {0})
performed g (ok (u, a)) = done u (record g { asm' = a })
performed g (err e) = fault (encoder e)

-- A call of a method of `self.asm`.
unfoldable pub asm : Call → Gen (Unit {0})
asm c g = performed (record g { called = g.called ++ (c ∷ []) }) (perform c g.asm')

-- `regs.resolve`
abbrev resolved : String → Resolution → Gen String
resolved name (register p) = pure p
resolved name reserved_register = raise (bad_register reserved_register name)
resolved name unknown_register = raise (bad_register unknown_register name)

unfoldable pub resolve_name : String → Gen String
unfolding pure raise
resolve_name name = resolved name (resolve (codes name))

-- a != b
abbrev pub differ : String → String → Bool
differ a b = not (str_eq a b)

abbrev pub move_unless : String → String → Gen (Unit {0})
move_unless dst src = when (differ dst src) (asm (Call.mov_reg_reg dst src))

-- f"__lbl_{name}" and f"__data_{name}"
abbrev pub lbl : String → String
lbl name = str_append "__lbl_" name

abbrev pub data_label : String → String
data_label name = str_append "__data_" name

abbrev digits : List String
digits = "0" ∷ "1" ∷ "2" ∷ "3" ∷ "4" ∷ "5" ∷ "6" ∷ "7" ∷ "8" ∷ "9" ∷ []

-- The digit of a number below ten.
abbrev digit : ℕ → String
digit n = elim (get_elem? digits n) [ some d ↦ d | none ↦ "" ]

-- The decimal notation. The fuel is the number itself, which has at most as many digits when it is not 0.
unfoldable decimal_from : ℕ → ℕ → String
decimal_from zero n = digit n
decimal_from (suc k) n =
    let front = decimal_from k (n / 10) in
    if ltb n 10 then digit n else str_append front (digit (n % 10))

unfoldable pub decimal : ℕ → String
unfolding decimal_from
decimal n = decimal_from n n

unfoldable pub label_name : String → ℕ → String
unfolding decimal
label_name prefix i = str_append "__aclm_" (str_append prefix (str_append "_" (decimal i)))

unfoldable pub new_label : String → Gen String
unfolding label_name
new_label prefix g = let i = suc g.label_i in done (label_name prefix i) (record g { label_i = i })

-- `if name not in self.data_layout`: the name gets an address, and the bytes go behind the data.
unfoldable pub reserve : String → List ℕ → Gen (Unit {0})
unfolding set
reserve name bytes = set λ g. if has name g.data_layout then g else record g {
  data_layout = insert name (length g.data_bytes) g.data_layout;
  data_bytes = g.data_bytes ++ bytes;
}

abbrev member : String → List String → Bool
member name [] = false
member name (x ∷ xs) = if str_eq x name then true else member name xs

-- `if not getattr(self, name, False)`: the body, once.
unfoldable pub once : String → Gen (Unit {0}) → Gen (Unit {0})
unfolding get set ◌>>=◌
once name body = do
  g ← get
  when (not (member name g.emitted)) (do body; set (λ h. record h { emitted = name ∷ h.emitted }))

unfoldable pub has_data : String → Gen Bool
has_data name g = done (has name g.data_layout) g

unfoldable pub push_all : List String → Gen (Unit {0})
unfolding for_each
push_all rs = for_each rs λ r. asm (Call.push_reg r)

unfoldable pub pop_all : List String → Gen (Unit {0})
unfolding for_each
pop_all rs = for_each rs λ r. asm (Call.pop_reg r)

-- A call whose operands are register names of the program.
abbrev pub asm1 : (String → Call) → String → Gen (Unit {0})
asm1 f a = do x ← resolve_name a; asm (f x)

abbrev pub asm2 : (String → String → Call) → String → String → Gen (Unit {0})
asm2 f a b = do x ← resolve_name a; y ← resolve_name b; asm (f x y)

abbrev pub asm3 : (String → String → String → Call) → String → String → String → Gen (Unit {0})
asm3 f a b c = do x ← resolve_name a; y ← resolve_name b; z ← resolve_name c; asm (f x y z)

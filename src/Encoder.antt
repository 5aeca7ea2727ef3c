-- ===== src/Encoder.antt =====
-- ACLM/x64enc.py: the integer encodings, the REX and ModRM bytes, and the `Assembler` object with
-- its labels, fixups and `link`. The instruction methods are in the modules below.
-- `x & 7` is written `x % 8`, and so for the other masks of low bits.
pub mod Bytes
pub mod Emits
pub mod ReadBack
pub mod Prefixes
pub mod Registers
pub mod Linking
pub mod Memory
pub mod Move
pub mod Conditions
pub mod ConditionCodes
pub mod ImmediateLoads
pub mod Invariant
pub mod Keeps
pub mod Call
pub mod Program
pub mod Arith
pub mod Shift
pub mod BitOps
pub mod Vex
pub mod Flow
pub mod System
pub mod Fpu
pub mod Disp8
pub mod Sse
pub mod Avx
use aclmv.Prelude.{
  ℕ, zero, suc, ◌+◌, ◌-◌, ◌/◌, ◌%◌, ◌^◌, bit_or, String, Bool, false, Option, none, some, List, [],
  ◌∷◌, ◌++◌, if◌then◌else◌, length, take, drop, Assoc, lookup,
}
use aclmv.Prelude.Int.{ℤ, sub_ℕ, fits, wrap}
use aclmv.Prelude.Bits.{shl}

-- The exceptions that the encoder raises, by the message's kind.
pub data Error : Type 0 where
  imm8_range : ℤ → Error
  imm32_range : ℤ → Error
  unknown_register : String → Error
  unknown_xmm : String → Error
  duplicate_label : String → Error
  undefined_label : String → Error
  bad_condition : String → Error
  key_error : Error
  name_error : Error

pub data Result {ℓ} (A : Type ℓ) : Type ℓ where
  ok : A → Result A
  err : Error → Result A

-- A computation that goes on only if no exception was raised.
abbrev pub and_then : {A B : Type 0} → Result A → (A → Result B) → Result B
and_then (ok a) f = f a
and_then (err e) f = err e

-- REGISTERS
abbrev pub registers : Assoc ℕ
registers =
    ("rax", 0)
    ∷ ("rcx", 1)
    ∷ ("rdx", 2)
    ∷ ("rbx", 3)
    ∷ ("rsp", 4)
    ∷ ("rbp", 5)
    ∷ ("rsi", 6)
    ∷ ("rdi", 7)
    ∷ ("r8", 8)
    ∷ ("r9", 9)
    ∷ ("r10", 10)
    ∷ ("r11", 11)
    ∷ ("r12", 12)
    ∷ ("r13", 13)
    ∷ ("r14", 14)
    ∷ ("r15", 15)
    ∷ []

-- `v.to_bytes(n, "little")`
unfoldable pub le_bytes : ℕ → ℕ → List ℕ
le_bytes zero v = []
le_bytes (suc n) v = (v % 256) ∷ le_bytes n (v / 256)

unfoldable pub u8 : ℕ → List ℕ
unfolding le_bytes
u8 v = le_bytes 1 (v % 2 ^ 8)

unfoldable pub s8 : ℤ → Result (List ℕ)
unfolding le_bytes
s8 v = if fits (2 ^ 7) v then ok (le_bytes 1 (wrap (2 ^ 8) v)) else err (imm8_range v)

unfoldable pub u32 : ℤ → List ℕ
unfolding le_bytes
u32 v = le_bytes 4 (wrap (2 ^ 32) v)

unfoldable pub s32 : ℤ → Result (List ℕ)
unfolding le_bytes
s32 v = if fits (2 ^ 31) v then ok (le_bytes 4 (wrap (2 ^ 32) v)) else err (imm32_range v)

unfoldable pub u64 : ℤ → List ℕ
unfolding le_bytes
u64 v = le_bytes 8 (wrap (2 ^ 64) v)

-- `REGISTERS.get(name)`, and the error when there is none.
abbrev pub found : String → Option ℕ → Result ℕ
found name none = err (unknown_register name)
found name (some r) = ok r

unfoldable pub reg_num : String → Result ℕ
unfolding lookup
reg_num name = found name (lookup name registers)

unfoldable pub rex : ℕ → ℕ → ℕ → ℕ → ℕ
rex w r x b = bit_or (bit_or (bit_or (bit_or 0x40 (shl w 3)) (shl r 2)) (shl x 1)) b

unfoldable pub modrm : ℕ → ℕ → ℕ → ℕ
modrm mod' reg rm = bit_or (bit_or (shl (mod' % 4) 6) (shl (reg % 8) 3)) (rm % 8)

-- A pending rel32 fixup.
pub record Reloc : Type 0 where
  pub offset : ℕ
  pub target : String
  pub kind : String
  pub size : ℕ

pub record Assembler : Type 0 where
  pub code : List ℕ
  pub labels : Assoc ℕ
  pub relocs : List Reloc
  pub deterministic : Bool

-- `Assembler.__init__`
abbrev pub init : Assembler
init = record { code = []; labels = []; relocs = []; deterministic = false }

-- A method that mutates the assembler and may raise. An exception ends the build, and the
-- assembler is dropped with it.
abbrev pub Asm : Type 0 → Type 0
Asm A = Assembler → Result (A × Assembler)

infixl 5 ◌>>=◌ ◌>>◌
unfoldable pub ◌>>=◌ : {A B : Type 0} → Asm A → (A → Asm B) → Asm B
◌>>=◌ m f s = elim (m s) [ ok (a, s') ↦ f a s' | err e ↦ err e ]

abbrev pub ◌>>◌ : {B : Type 0} → Asm (Unit {0}) → Asm B → Asm B
m >> n = m >>= λ _. n

unfoldable pub pure : {A : Type 0} → A → Asm A
pure a s = ok (a, s)

unfoldable pub skip : Asm (Unit {0})
unfolding pure
skip = pure tt

unfoldable pub lift : {A : Type 0} → Result A → Asm A
lift (ok a) s = ok (a, s)
lift (err e) s = err e

-- `label`
abbrev pub add_label : String → Option ℕ → Asm (Unit {0})
add_label name (some _) s = err (duplicate_label name)
add_label name none s = ok (tt, record s { labels = s.labels ++ ((name, length s.code) ∷ []) })

unfoldable pub label : String → Asm (Unit {0})
label name s = add_label name (lookup name s.labels) s

-- `here`
unfoldable pub here : Assembler → ℕ
here s = length s.code

-- `_emit`
unfoldable pub emit : List ℕ → Asm (Unit {0})
emit b s = ok (tt, record s { code = s.code ++ b })

abbrev pub zeros : List ℕ
zeros = 0 ∷ 0 ∷ 0 ∷ 0 ∷ []

-- `self.relocs.append(Reloc(len(self.code) - 4, target, "rel32", 4))`
unfoldable pub add_reloc : String → Asm (Unit {0})
add_reloc target s = ok (
  tt,
  record s {
    relocs =
        s.relocs
        ++ (record { offset = length s.code - 4; target = target; kind = "rel32"; size = 4 } ∷ []);
  },
)

unfoldable pub emit_rel32_fixup : String → Asm (Unit {0})
unfolding emit add_reloc ◌>>=◌
emit_rel32_fixup target = do emit zeros; add_reloc target

-- `code[off:off + 4] = bytes`
unfoldable pub patch : List ℕ → ℕ → List ℕ → List ℕ
patch code off bytes = take off code ++ (bytes ++ drop (off + 4) code)

-- One round of the loop of `link`, and the loop.
abbrev target_offset : String → Option ℕ → Result ℕ
target_offset name none = err (undefined_label name)
target_offset name (some off) = ok off

unfoldable pub link_reloc : Assoc ℕ → Reloc → List ℕ → Result (List ℕ)
unfolding patch
link_reloc offs r code = and_then (target_offset r.target (lookup r.target offs)) λ target_off.
    and_then (s32 (sub_ℕ target_off (r.offset + 4))) λ bytes. ok (patch code r.offset bytes)

unfoldable pub link_loop : Assoc ℕ → List Reloc → List ℕ → Result (List ℕ)
link_loop offs [] code = ok code
link_loop offs (r ∷ rs) code = and_then (link_reloc offs r code) λ code'. link_loop offs rs code'

abbrev pub offsets : Assembler → Option (Assoc ℕ) → Assoc ℕ
offsets s none = s.labels
offsets s (some m) = m

abbrev pub linked : Assembler → Result (List ℕ) → Result (Unit {0} × Assembler)
linked s (ok code) = ok (tt, record s { code = code })
linked s (err e) = err e

unfoldable pub link : Option (Assoc ℕ) → Asm (Unit {0})
link base_offset_map s = linked s (link_loop (offsets s base_offset_map) s.relocs s.code)

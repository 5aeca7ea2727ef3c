-- ===== src/X86.antt =====
-- The x86-64 instruction format, from the architecture's manual and independent of the encoder: how a
-- processor in 64-bit mode reads prefixes, REX or VEX, opcode map, ModRM, SIB and displacement.
-- The theorems about the encoder are stated with it.
pub mod Immediate
pub mod Flags
use aclmv.Prelude.{
  ℕ, ◌+◌, ◌-◌, ◌*◌, ◌/◌, ◌%◌, ◌^◌, Bool, true, false, ◌&&◌, ◌||◌, Option, none, some, List, [], ◌∷◌,
  ◌==◌, leb, ltb, if◌then◌else◌,
}
use aclmv.Prelude.Int.{ℤ, pos, signed}

-- A register's number, or a memory operand. An index comes with its scale.
pub data Operand : Type 0 where
  register : ℕ → Operand
  memory : ℕ → Option (ℕ × ℕ) → ℤ → Operand
  rip_relative : ℤ → Operand
  no_base : Option (ℕ × ℕ) → ℤ → Operand

-- The displacement that the mod field announces: none, one byte or four, sign-extended.
unfoldable pub read_disp8 : List ℕ → Option (ℤ × List ℕ)
read_disp8 [] = none
read_disp8 (a ∷ rest) = some (signed 128 a, rest)

unfoldable pub read_disp32 : List ℕ → Option (ℤ × List ℕ)
read_disp32 (a ∷ b ∷ c ∷ d ∷ rest) =
    some (signed (2 ^ 31) (a + 256 * (b + 256 * (c + 256 * d))), rest)
read_disp32 _ = none

unfoldable pub read_disp : ℕ → List ℕ → Option (ℤ × List ℕ)
unfolding read_disp8 read_disp32
read_disp mod' rest =
    if mod' == 0
    then some (pos 0, rest)
    else if mod' == 1
    then read_disp8 rest
    else read_disp32 rest

abbrev pub with_disp : (ℤ → Operand) → Option (ℤ × List ℕ) → Option (Operand × List ℕ)
with_disp f none = none
with_disp f (some (d, rest)) = some (f d, rest)

abbrev pub scale_of : ℕ → ℕ
scale_of s = if s == 0 then 1 else if s == 1 then 2 else if s == 2 then 4 else 8

-- The index field 100 without REX.X stands for no index.
abbrev pub index_of : ℕ → ℕ → Option (ℕ × ℕ)
index_of idx scale = if idx == 4 then none else some (idx, scale)

unfoldable pub read_sib : ℕ → ℕ → ℕ → List ℕ → Option (Operand × List ℕ)
unfolding read_disp
read_sib mod' x b [] = none
read_sib mod' x b (sib ∷ rest) =
    let index : Option (ℕ × ℕ) = index_of (sib / 8 % 8 + 8 * x) (scale_of (sib / 64)) in
    if mod' == 0 && sib % 8 == 5
    then with_disp (no_base index) (read_disp 2 rest)
    else with_disp (memory (sib % 8 + 8 * b) index) (read_disp mod' rest)

unfoldable pub read_rm : ℕ → ℕ → ℕ → ℕ → List ℕ → Option (Operand × List ℕ)
unfolding read_disp read_sib
read_rm mod' rm x b rest =
    if mod' == 3
    then some (register (rm + 8 * b), rest)
    else if rm == 4
    then read_sib mod' x b rest
    else if mod' == 0 && rm == 5
    then with_disp rip_relative (read_disp 2 rest)
    else with_disp (memory (rm + 8 * b) none) (read_disp mod' rest)

-- An instruction up to its immediate: the mandatory prefix (0 if there is none), 1 if there is a REX
-- byte and else 0, REX.W, the opcode map (0, or 1 for 0F, 2 for 0F 38, 3 for 0F 3A), the opcode, ModRM.reg with REX.R, and the r/m operand.
pub record Instruction : Type 0 where
  pub prefix : ℕ
  pub rex : ℕ
  pub w : ℕ
  pub opmap : ℕ
  pub opcode : ℕ
  pub reg : ℕ
  pub rm : Operand

-- The REX bits, or the like of a VEX prefix.
pub record Extension : Type 0 where
  pub prefix : ℕ
  pub rex : ℕ
  pub w : ℕ
  pub r : ℕ
  pub x : ℕ
  pub b : ℕ

abbrev pub finish :
    Extension → ℕ → ℕ → ℕ → Option (Operand × List ℕ) → Option (Instruction × List ℕ)
finish e opmap opcode reg none = none
finish e opmap opcode reg (some (rm, rest)) = some (
  record {
    prefix = e.prefix;
    rex = e.rex;
    w = e.w;
    opmap = opmap;
    opcode = opcode;
    reg = reg + 8 * e.r;
    rm = rm;
  },
  rest,
)

unfoldable pub read_modrm : Extension → ℕ → ℕ → List ℕ → Option (Instruction × List ℕ)
read_modrm e opmap opcode [] = none
read_modrm e opmap opcode (m ∷ rest) =
    finish e opmap opcode (m / 8 % 8) (read_rm (m / 64) (m % 8) e.x e.b rest)

unfoldable pub read_map : Extension → ℕ → List ℕ → Option (Instruction × List ℕ)
read_map e opmap [] = none
read_map e opmap (opcode ∷ rest) = read_modrm e opmap opcode rest

unfoldable pub read_escape : Extension → List ℕ → Option (Instruction × List ℕ)
read_escape e [] = none
read_escape e (c ∷ rest) =
    if c == 0x38
    then read_map e 2 rest
    else if c == 0x3a
    then read_map e 3 rest
    else read_modrm e 1 c rest

unfoldable pub read_opcode : Extension → List ℕ → Option (Instruction × List ℕ)
read_opcode e [] = none
read_opcode e (c ∷ rest) = if c == 0x0f then read_escape e rest else read_modrm e 0 c rest

unfoldable pub read_rex : ℕ → List ℕ → Option (Instruction × List ℕ)
read_rex prefix [] = none
read_rex prefix (c ∷ rest) =
    if c / 16 == 4
    then read_opcode
        (record {
          prefix = prefix;
          rex = 1;
          w = c / 8 % 2;
          r = c / 4 % 2;
          x = c / 2 % 2;
          b = c % 2;
        })
        rest
    else read_opcode (record { prefix = prefix; rex = 0; w = 0; r = 0; x = 0; b = 0 }) (c ∷ rest)

abbrev pub is_prefix : ℕ → Bool
is_prefix c = c == 0x66 || c == 0xf2 || c == 0xf3 || c == 0xf0

-- An instruction with at most one legacy prefix, at the head of the bytes, and the bytes behind it.
unfoldable pub decode : List ℕ → Option (Instruction × List ℕ)
decode [] = none
decode (c ∷ rest) = if is_prefix c then read_rex c rest else read_rex 0 (c ∷ rest)

-- An 8-bit register operand: without a REX byte the numbers 4 to 7 are AH, CH, DH and BH.
pub data ByteRegister : Type 0 where
  low : ℕ → ByteRegister
  high : ℕ → ByteRegister

unfoldable pub byte_register : ℕ → ℕ → ByteRegister
byte_register rex n = if rex == 0 && leb 4 n && ltb n 8 then high (n - 4) else low n

-- A three-byte VEX instruction: pp, W, map, vvvv (stored inverted) and L besides.
pub record VexInstruction : Type 0 where
  pub pp : ℕ
  pub w : ℕ
  pub opmap : ℕ
  pub vvvv : ℕ
  pub l : ℕ
  pub opcode : ℕ
  pub reg : ℕ
  pub rm : Operand

abbrev pub finish_vex : ℕ → ℕ → ℕ → Option (Operand × List ℕ) → ℕ → Option (VexInstruction × List ℕ)
finish_vex p q opcode none m = none
finish_vex p q opcode (some (rm, rest)) m = some (
  record {
    pp = q % 4;
    w = q / 128;
    opmap = p % 32;
    vvvv = 15 - q / 8 % 16;
    l = q / 4 % 2;
    opcode = opcode;
    reg = m / 8 % 8 + 8 * (1 - p / 128);
    rm = rm;
  },
  rest,
)

unfoldable pub decode_vex : List ℕ → Option (VexInstruction × List ℕ)
decode_vex (c ∷ p ∷ q ∷ opcode ∷ m ∷ rest) =
    if c == 0xc4
    then finish_vex p q opcode (read_rm (m / 64) (m % 8) (1 - p / 64 % 2) (1 - p / 32 % 2) rest) m
    else none
decode_vex _ = none

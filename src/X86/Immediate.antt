-- ===== src/X86/Immediate.antt =====
-- The three forms of `mov` with an immediate, from the architecture's manual: B8+r with four bytes
-- (zero-extended), REX.W B8+r with eight, and REX.W c7 /0 with four (sign-extended).
use aclmv.Prelude.{
  ℕ, zero, suc, ◌+◌, ◌*◌, ◌/◌, ◌%◌, ◌^◌, Option, none, some, List, [], ◌∷◌, ◌==◌, ltb,
  if◌then◌else◌,
}

-- A little-endian number of n bytes.
abbrev step_le : ℕ → Option (ℕ × List ℕ) → Option (ℕ × List ℕ)
step_le a none = none
step_le a (some (v, rest)) = some (a + 256 * v, rest)

unfoldable pub read_le : ℕ → List ℕ → Option (ℕ × List ℕ)
read_le zero rest = some (0, rest)
read_le (suc n) [] = none
read_le (suc n) (a ∷ rest) = step_le a (read_le n rest)

-- A register's number, the value that it receives, and the bytes behind the instruction.
abbrev pub loaded : ℕ → (ℕ → ℕ) → Option (ℕ × List ℕ) → Option (ℕ × ℕ × List ℕ)
loaded reg f none = none
loaded reg f (some (v, rest)) = some (reg, f v, rest)

abbrev pub same : ℕ → ℕ
same v = v

abbrev pub sign_extend32 : ℕ → ℕ
sign_extend32 v = if ltb v (2 ^ 31) then v else v + 0xffff_ffff_0000_0000

-- Without REX.W; `b` is REX.B.
unfoldable pub read_mov32 : ℕ → List ℕ → Option (ℕ × ℕ × List ℕ)
read_mov32 b [] = none
read_mov32 b (c ∷ rest) = if c / 8 == 23 then loaded (c % 8 + 8 * b) same (read_le 4 rest) else none

unfoldable pub read_mov_c7 : ℕ → List ℕ → Option (ℕ × ℕ × List ℕ)
read_mov_c7 b [] = none
read_mov_c7 b (m ∷ rest) =
    if m / 8 == 24 then loaded (m % 8 + 8 * b) sign_extend32 (read_le 4 rest) else none

-- With REX.W.
unfoldable pub read_mov64 : ℕ → List ℕ → Option (ℕ × ℕ × List ℕ)
unfolding read_mov_c7
read_mov64 b [] = none
read_mov64 b (c ∷ rest) =
    if c / 8 == 23
    then loaded (c % 8 + 8 * b) same (read_le 8 rest)
    else if c == 0xc7
    then read_mov_c7 b rest
    else none

unfoldable pub read_mov_imm : List ℕ → Option (ℕ × ℕ × List ℕ)
unfolding read_mov32 read_mov64
read_mov_imm [] = none
read_mov_imm (c ∷ rest) =
    if c / 16 == 4
    then (if c / 8 % 2 == 1 then read_mov64 (c % 2) rest else read_mov32 (c % 2) rest)
    else read_mov32 0 (c ∷ rest)

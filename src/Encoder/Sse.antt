-- ===== src/Encoder/Sse.antt =====
-- ACLM/x64enc.py: the SSE instructions, on the registers xmm0 to xmm7.
use aclmv.Prelude.{
  ℕ, ◌%◌, String, Option, none, some, Assoc, ◌&&◌, not, [], ◌∷◌, leb, ◌==◌, if◌then◌else◌,
}
use aclmv.Prelude.Int.{ℤ, wrap, fits, is_zero}
use aclmv.Prelude.Bits.{shr}
use aclmv.Prelude.Text.{codes, lower, find}
use aclmv.Encoder.{
  Result, ok, err, unknown_xmm, u8, s8, s32, reg_num, rex, modrm, Asm, ◌>>=◌, ◌>>◌, skip, lift,
  emit,
}

-- XMM
abbrev pub xmm : Assoc ℕ
xmm =
    ("xmm0", 0)
    ∷ ("xmm1", 1)
    ∷ ("xmm2", 2)
    ∷ ("xmm3", 3)
    ∷ ("xmm4", 4)
    ∷ ("xmm5", 5)
    ∷ ("xmm6", 6)
    ∷ ("xmm7", 7)
    ∷ []

abbrev found_xmm : String → Option ℕ → Result ℕ
found_xmm name none = err (unknown_xmm name)
found_xmm name (some n) = ok n

-- The table is asked for the name in lower case.
unfoldable pub xmm_num : String → Result ℕ
xmm_num name = found_xmm name (find (lower (codes name)) xmm)

-- The bodies of `movups_xmm_mem` and `movups_mem_xmm`, which differ in the second opcode byte. The
-- test of `rex_byte` is that of its two cases, since no REX byte is 0.
unfoldable pub movups : ℕ → ℕ → ℕ → ℤ → Asm (Unit {0})
movups opcode2 x b disp = do
  (if leb 8 b
      then emit (u8 (rex 0 (shr x 3) 0 1))
      else (do if leb 8 x then emit (u8 (rex 0 1 0 0)) else skip))
  let b' : ℕ = if leb 8 b then b % 8 else b
  emit (0x0f ∷ opcode2 ∷ [])
  if is_zero disp && not (b' == 5)
      then (do emit (u8 (modrm 0 (x % 8) b')); if b' == 4 then emit (u8 0x24) else skip)
      else if fits 128 disp
      then (do
        emit (u8 (modrm 1 (x % 8) b'))
        (if b' == 4 then emit (u8 0x24) else skip)
        bytes ← lift (s8 disp)
        emit bytes)
      else (do
        emit (u8 (modrm 2 (x % 8) b'))
        (if b' == 4 then emit (u8 0x24) else skip)
        bytes ← lift (s32 disp)
        emit bytes)

unfoldable pub movups_xmm_mem : String → String → ℤ → Asm (Unit {0})
movups_xmm_mem xmm base disp = do
  x ← lift (xmm_num xmm)
  b ← lift (reg_num base)
  movups 0x10 x b disp

unfoldable pub movups_mem_xmm : String → String → ℤ → Asm (Unit {0})
movups_mem_xmm base xmm disp = do
  x ← lift (xmm_num xmm)
  b ← lift (reg_num base)
  movups 0x11 x b disp

unfoldable pub sse_binop_xmm_xmm : ℕ → String → String → Asm (Unit {0})
sse_binop_xmm_xmm opcode2 dst src = do
  d ← lift (xmm_num dst)
  s ← lift (xmm_num src)
  emit (0x0f ∷ [])
  emit (u8 opcode2)
  emit (u8 (modrm 3 (d % 8) (s % 8)))

unfoldable pub addps : String → String → Asm (Unit {0})
addps dst src = sse_binop_xmm_xmm 0x58 dst src

unfoldable pub subps : String → String → Asm (Unit {0})
subps dst src = sse_binop_xmm_xmm 0x5c dst src

unfoldable pub mulps : String → String → Asm (Unit {0})
mulps dst src = sse_binop_xmm_xmm 0x59 dst src

unfoldable pub divps : String → String → Asm (Unit {0})
divps dst src = sse_binop_xmm_xmm 0x5e dst src

unfoldable pub movaps_xmm_xmm : String → String → Asm (Unit {0})
movaps_xmm_xmm dst src = sse_binop_xmm_xmm 0x28 dst src

unfoldable pub sse_pd_binop : ℕ → ℕ → String → String → Asm (Unit {0})
sse_pd_binop _ opcode2 dst src = do
  d ← lift (xmm_num dst)
  s ← lift (xmm_num src)
  emit (u8 0x66)
  emit (0x0f ∷ [])
  emit (u8 opcode2)
  emit (u8 (modrm 3 (d % 8) (s % 8)))

unfoldable pub addpd : String → String → Asm (Unit {0})
addpd dst src = sse_pd_binop 0x66 0x58 dst src

unfoldable pub subpd : String → String → Asm (Unit {0})
subpd dst src = sse_pd_binop 0x66 0x5c dst src

unfoldable pub mulpd : String → String → Asm (Unit {0})
mulpd dst src = sse_pd_binop 0x66 0x59 dst src

unfoldable pub divpd : String → String → Asm (Unit {0})
divpd dst src = sse_pd_binop 0x66 0x5e dst src

unfoldable pub paddd : String → String → Asm (Unit {0})
paddd dst src = do
  d ← lift (xmm_num dst)
  s ← lift (xmm_num src)
  emit (u8 0x66)
  emit (0x0f ∷ 0xfe ∷ [])
  emit (u8 (modrm 3 (d % 8) (s % 8)))

unfoldable pub psubd : String → String → Asm (Unit {0})
psubd dst src = do
  d ← lift (xmm_num dst)
  s ← lift (xmm_num src)
  emit (u8 0x66)
  emit (0x0f ∷ 0xfa ∷ [])
  emit (u8 (modrm 3 (d % 8) (s % 8)))

unfoldable pub shufps : String → String → ℤ → Asm (Unit {0})
shufps dst src imm8 = do
  d ← lift (xmm_num dst)
  s ← lift (xmm_num src)
  emit (0x0f ∷ 0xc6 ∷ [])
  emit (u8 (modrm 3 (d % 8) (s % 8)))
  emit (u8 (wrap 0x100 imm8))

unfoldable pub haddps : String → String → Asm (Unit {0})
haddps dst src = do
  d ← lift (xmm_num dst)
  s ← lift (xmm_num src)
  emit (u8 0xf2)
  emit (0x0f ∷ 0x7c ∷ [])
  emit (u8 (modrm 3 (d % 8) (s % 8)))

unfoldable pub blendps : String → String → ℤ → Asm (Unit {0})
blendps dst src imm8 = do
  d ← lift (xmm_num dst)
  s ← lift (xmm_num src)
  emit (u8 0x66)
  emit (0x0f ∷ 0x3a ∷ 0x0c ∷ [])
  emit (u8 (modrm 3 (d % 8) (s % 8)))
  emit (u8 (wrap 0x100 imm8))

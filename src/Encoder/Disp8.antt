-- ===== src/Encoder/Disp8.antt =====
-- ACLM/x64enc.py: the memory forms with a disp8 written by hand.
use aclmv.Prelude.{
  ℕ, ◌%◌, bit_or, String, not, ◌&&◌, Option, none, some, [], ◌∷◌, ◌==◌, if◌then◌else◌, lookup,
}
use aclmv.Prelude.Int.{ℤ, is_zero, wrap}
use aclmv.Prelude.Bits.{shl, shr}
use aclmv.Encoder.{
  Result, ok, err, bad_condition, u8, reg_num, rex, modrm, Asm, ◌>>=◌, ◌>>◌, lift, emit,
}
use aclmv.Encoder.Conditions.{cmov_opcode}

unfoldable pub xchg_mem_reg : String → ℤ → String → Asm (Unit {0})
xchg_mem_reg base disp reg = do
  r ← lift (reg_num reg)
  b ← lift (reg_num base)
  let rex_v : ℕ = bit_or (bit_or 0x48 (shl (shr r 3) 2)) (shr b 3)
  emit (u8 rex_v)
  emit (u8 0x87)
  if is_zero disp && not (b % 8 == 5)
      then emit (u8 (modrm 0 (r % 8) (b % 8)))
      else (do emit (u8 (modrm 1 (r % 8) (b % 8))); emit (u8 (wrap 0x100 disp)))

unfoldable pub xchg_reg_mem : String → String → ℤ → Asm (Unit {0})
xchg_reg_mem reg base disp = do
  r ← lift (reg_num reg)
  b ← lift (reg_num base)
  emit (u8 (rex 1 (shr r 3) 0 (shr b 3)))
  emit (u8 0x87)
  let rm : ℕ = b % 8
  if is_zero disp && not (rm == 5)
      then emit (u8 (modrm 0 (r % 8) rm))
      else (do emit (u8 (modrm 1 (r % 8) rm)); emit (u8 (wrap 0x100 disp)))

unfoldable pub cmpxchg16b_mem : String → ℤ → Asm (Unit {0})
cmpxchg16b_mem base disp = do
  b ← lift (reg_num base)
  emit (u8 0xf0)
  let rex_b : ℕ = bit_or 0x48 (shr b 3 % 2)
  emit (u8 rex_b)
  emit (0x0f ∷ 0xc7 ∷ [])
  let rm : ℕ = b % 8
  if is_zero disp && not (rm == 5)
      then emit (u8 (modrm 0 1 rm))
      else (do emit (u8 (modrm 1 1 rm)); emit (u8 (wrap 0x100 disp)))

unfoldable pub cmpxchg8b_mem : String → ℤ → Asm (Unit {0})
cmpxchg8b_mem base disp = do
  b ← lift (reg_num base)
  emit (u8 (rex 0 0 0 (shr b 3)))
  emit (0x0f ∷ 0xc7 ∷ [])
  let rm : ℕ = b % 8
  if is_zero disp && not (rm == 5)
      then emit (u8 (modrm 0 1 rm))
      else (do emit (u8 (modrm 1 1 rm)); emit (u8 (wrap 0x100 disp)))

unfoldable pub prefetchw : String → ℤ → Asm (Unit {0})
prefetchw base disp = do
  b ← lift (reg_num base)
  emit (0x0f ∷ 0x0d ∷ [])
  if is_zero disp && not (b % 8 == 5)
      then emit (u8 (modrm 0 1 (b % 8)))
      else (do emit (u8 (modrm 1 1 (b % 8))); emit (u8 (wrap 0x100 disp)))

unfoldable pub prefetchnta : String → ℤ → Asm (Unit {0})
prefetchnta base disp = do
  b ← lift (reg_num base)
  emit (0x0f ∷ 0x18 ∷ [])
  if is_zero disp && not (b % 8 == 5)
      then emit (u8 (modrm 0 0 (b % 8)))
      else (do emit (u8 (modrm 1 0 (b % 8))); emit (u8 (wrap 0x100 disp)))

unfoldable pub clflush : String → ℤ → Asm (Unit {0})
clflush base disp = do
  b ← lift (reg_num base)
  emit (0x0f ∷ 0xae ∷ [])
  if is_zero disp && not (b % 8 == 5)
      then emit (u8 (modrm 0 7 (b % 8)))
      else (do emit (u8 (modrm 1 7 (b % 8))); emit (u8 (wrap 0x100 disp)))

unfoldable pub stmxcsr_mem : String → ℤ → Asm (Unit {0})
stmxcsr_mem base disp = do
  b ← lift (reg_num base)
  emit (0x0f ∷ 0xae ∷ [])
  let rm : ℕ = b % 8
  if is_zero disp && not (rm == 5)
      then emit (u8 (modrm 0 3 rm))
      else (do emit (u8 (modrm 1 3 rm)); emit (u8 (wrap 0x100 disp)))

unfoldable pub ldmxcsr_mem : String → ℤ → Asm (Unit {0})
ldmxcsr_mem base disp = do
  b ← lift (reg_num base)
  emit (0x0f ∷ 0xae ∷ [])
  let rm : ℕ = b % 8
  if is_zero disp && not (rm == 5)
      then emit (u8 (modrm 0 2 rm))
      else (do emit (u8 (modrm 1 2 rm)); emit (u8 (wrap 0x100 disp)))

unfoldable pub fxsave_mem : String → ℤ → Asm (Unit {0})
fxsave_mem base disp = do
  b ← lift (reg_num base)
  emit (0x0f ∷ 0xae ∷ [])
  let rm : ℕ = b % 8
  if is_zero disp && not (rm == 5)
      then emit (u8 (modrm 0 0 rm))
      else (do emit (u8 (modrm 1 0 rm)); emit (u8 (wrap 0x100 disp)))

unfoldable pub fxrstor_mem : String → ℤ → Asm (Unit {0})
fxrstor_mem base disp = do
  b ← lift (reg_num base)
  emit (0x0f ∷ 0xae ∷ [])
  let rm : ℕ = b % 8
  if is_zero disp && not (rm == 5)
      then emit (u8 (modrm 0 1 rm))
      else (do emit (u8 (modrm 1 1 rm)); emit (u8 (wrap 0x100 disp)))

unfoldable pub invlpg_mem : String → ℤ → Asm (Unit {0})
invlpg_mem base disp = do
  b ← lift (reg_num base)
  emit (0x0f ∷ 0x01 ∷ [])
  let rm : ℕ = b % 8
  if is_zero disp && not (rm == 5)
      then emit (u8 (modrm 0 7 rm))
      else (do emit (u8 (modrm 1 7 rm)); emit (u8 (wrap 0x100 disp)))

unfoldable pub lidt_mem : String → ℤ → Asm (Unit {0})
lidt_mem base disp = do
  b ← lift (reg_num base)
  let rex_v : ℕ = bit_or 0x48 (shr b 3)
  emit (u8 rex_v)
  emit (u8 0xf)
  emit (u8 1)
  if is_zero disp && not (b % 8 == 5)
      then emit (u8 (modrm 0 3 (b % 8)))
      else (do emit (u8 (modrm 1 3 (b % 8))); emit (u8 (wrap 0x100 disp)))

unfoldable pub lgdt_mem : String → ℤ → Asm (Unit {0})
lgdt_mem base disp = do
  b ← lift (reg_num base)
  let rex_v : ℕ = bit_or 0x48 (shr b 3)
  emit (u8 rex_v)
  emit (u8 0xf)
  emit (u8 1)
  if is_zero disp && not (b % 8 == 5)
      then emit (u8 (modrm 0 2 (b % 8)))
      else (do emit (u8 (modrm 1 2 (b % 8))); emit (u8 (wrap 0x100 disp)))

-- `CMOV_OPCODE.get(cond)`, and the error when there is none.
abbrev cmov_found : String → Option ℕ → Result ℕ
cmov_found cond none = err (bad_condition cond)
cmov_found cond (some op) = ok op

unfoldable pub cmov_reg_mem : String → String → String → ℤ → Asm (Unit {0})
unfolding lookup
cmov_reg_mem cond dst base disp = do
  op ← lift (cmov_found cond (lookup cond cmov_opcode))
  d ← lift (reg_num dst)
  b ← lift (reg_num base)
  emit (u8 (rex 1 (shr d 3) 0 (shr b 3)))
  emit (0x0f ∷ [])
  emit (u8 op)
  let rm : ℕ = b % 8
  if is_zero disp && not (rm == 5)
      then emit (u8 (modrm 0 (d % 8) rm))
      else (do emit (u8 (modrm 1 (d % 8) rm)); emit (u8 (wrap 0x100 disp)))

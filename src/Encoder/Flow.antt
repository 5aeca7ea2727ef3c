-- ===== src/Encoder/Flow.antt =====
-- ACLM/x64enc.py: flag capture, jumps, calls and the stack.
use aclmv.Prelude.{ℕ, zero, suc, ◌+◌, ◌%◌, String, ◌||◌, [], ◌∷◌, leb, ◌==◌, if◌then◌else◌}
use aclmv.Prelude.Int.{ℤ, pos, negsuc, wrap}
use aclmv.Prelude.Bits.{shr}
use aclmv.Encoder.{
  err, name_error, u8, reg_num, rex, modrm, Asm, ◌>>=◌, ◌>>◌, skip, lift, emit, add_reloc,
  emit_rel32_fixup, zeros,
}
use aclmv.Encoder.Conditions.{setcc_opcode, jcc_opcode, cmov_opcode, key}

unfoldable pub setcc_reg : String → String → Asm (Unit {0})
setcc_reg cond dst = do
  op ← key setcc_opcode cond
  d ← lift (reg_num dst)
  (if leb 8 d
      then emit (u8 (rex 0 0 0 1))
      else (do if d == 4 || d == 5 || d == 6 || d == 7 then emit (u8 (rex 0 0 0 0)) else skip))
  emit (0x0f ∷ [])
  emit (u8 op)
  emit (u8 (modrm 3 0 (d % 8)))
  emit (u8 (rex 1 (shr d 3) 0 (shr d 3)))
  emit (0x0f ∷ [])
  emit (u8 0xb6)
  emit (u8 (modrm 3 (d % 8) (d % 8)))

unfoldable pub jmp : String → Asm (Unit {0})
jmp target = do emit (0xe9 ∷ []); emit_rel32_fixup target

unfoldable pub jcc : String → String → Asm (Unit {0})
jcc cond target = do
  op ← key jcc_opcode cond
  emit (0x0f ∷ [])
  emit (u8 op)
  emit_rel32_fixup target

unfoldable pub call : String → Asm (Unit {0})
call target = do emit (0xe8 ∷ []); emit_rel32_fixup target

unfoldable pub ret : Asm (Unit {0})
ret = emit (0xc3 ∷ [])

unfoldable pub leave : Asm (Unit {0})
leave = emit (0xc9 ∷ [])

unfoldable pub push_reg : String → Asm (Unit {0})
push_reg r = do
  rr ← lift (reg_num r)
  (if leb 8 rr then emit (u8 (rex 0 0 0 1)) else skip)
  emit (u8 (0x50 + rr % 8))

unfoldable pub pop_reg : String → Asm (Unit {0})
pop_reg r = do
  rr ← lift (reg_num r)
  (if leb 8 rr then emit (u8 (rex 0 0 0 1)) else skip)
  emit (u8 (0x58 + rr % 8))

unfoldable pub syscall : Asm (Unit {0})
syscall = emit (0x0f ∷ 0x05 ∷ [])

unfoldable pub nop : Asm (Unit {0})
nop = emit (0x90 ∷ [])

unfoldable pub cmov_reg_reg : String → String → String → Asm (Unit {0})
cmov_reg_reg cond dst src = do
  op ← key cmov_opcode cond
  d ← lift (reg_num dst)
  s ← lift (reg_num src)
  emit (u8 (rex 1 (shr d 3) 0 (shr s 3)))
  emit (0x0f ∷ [])
  emit (u8 op)
  emit (u8 (modrm 3 (d % 8) (s % 8)))

unfoldable pub call_reg : String → Asm (Unit {0})
call_reg reg = do
  r ← lift (reg_num reg)
  emit (u8 (rex 1 0 0 (shr r 3)))
  emit (u8 0xff)
  emit (u8 (modrm 3 2 (r % 8)))

unfoldable pub int_imm : ℤ → Asm (Unit {0})
int_imm vec = do emit (u8 0xcd); emit (u8 (wrap 0x100 vec))

unfoldable pub ret_imm16 : ℤ → Asm (Unit {0})
ret_imm16 _ = do emit (u8 0xc2); lift (err name_error)

unfoldable pub enter_imm : ℤ → ℤ → Asm (Unit {0})
enter_imm _ nesting = do emit (u8 0xc8); lift (err name_error); emit (u8 (wrap 0x100 nesting))

unfoldable pub lea_reg_label : String → String → Asm (Unit {0})
lea_reg_label dst target = do
  d ← lift (reg_num dst)
  emit (u8 (rex 1 (shr d 3) 0 0))
  emit (u8 0x8d)
  emit (u8 (modrm 0 (d % 8) 5))
  emit zeros
  add_reloc target

-- The class has `setcc_reg`, so the `hasattr` test passes.
unfoldable pub seto_reg : String → Asm (Unit {0})
seto_reg dst = setcc_reg "overflow" dst

-- The rounds of the loop of `nop_multi`.
unfoldable pub nops : ℕ → Asm (Unit {0})
nops zero = skip
nops (suc k) = do nop; nops k

abbrev rounds : ℤ → ℕ
rounds (pos zero) = 1
rounds (pos (suc k)) = suc k
rounds (negsuc k) = 1

unfoldable pub nop_multi : ℤ → Asm (Unit {0})
nop_multi n = nops (rounds n)

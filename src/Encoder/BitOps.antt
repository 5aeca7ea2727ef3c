-- ===== src/Encoder/BitOps.antt =====
-- ACLM/x64enc.py: bit scans, bit tests, extensions and other register instructions of two- and three-byte opcodes.
use aclmv.Prelude.{ℕ, ◌+◌, ◌%◌, String, [], ◌∷◌, ◌==◌, if◌then◌else◌}
use aclmv.Prelude.Int.{ℤ, wrap}
use aclmv.Prelude.Bits.{shr}
use aclmv.Encoder.{u8, reg_num, rex, modrm, Asm, ◌>>=◌, ◌>>◌, lift, emit}

unfoldable pub movzx_reg_reg : String → String → ℕ → Asm (Unit {0})
movzx_reg_reg dst src size = do
  d ← lift (reg_num dst)
  s ← lift (reg_num src)
  emit (u8 (rex 1 (shr d 3) 0 (shr s 3)))
  emit (0x0f ∷ [])
  emit (u8 (if size == 8 then 0xb6 else 0xb7))
  emit (u8 (modrm 3 (d % 8) (s % 8)))

unfoldable pub movsx_reg_reg : String → String → ℕ → Asm (Unit {0})
movsx_reg_reg dst src size = do
  d ← lift (reg_num dst)
  s ← lift (reg_num src)
  emit (u8 (rex 1 (shr d 3) 0 (shr s 3)))
  emit (0x0f ∷ [])
  emit (u8 (if size == 8 then 0xbe else 0xbf))
  emit (u8 (modrm 3 (d % 8) (s % 8)))

unfoldable pub bsf_reg_reg : String → String → Asm (Unit {0})
bsf_reg_reg dst src = do
  d ← lift (reg_num dst)
  s ← lift (reg_num src)
  emit (u8 (rex 1 (shr d 3) 0 (shr s 3)))
  emit (0x0f ∷ 0xbc ∷ [])
  emit (u8 (modrm 3 (d % 8) (s % 8)))

unfoldable pub bsr_reg_reg : String → String → Asm (Unit {0})
bsr_reg_reg dst src = do
  d ← lift (reg_num dst)
  s ← lift (reg_num src)
  emit (u8 (rex 1 (shr d 3) 0 (shr s 3)))
  emit (0x0f ∷ 0xbd ∷ [])
  emit (u8 (modrm 3 (d % 8) (s % 8)))

unfoldable pub bt_reg_reg : String → String → Asm (Unit {0})
bt_reg_reg base offset = do
  b ← lift (reg_num base)
  o ← lift (reg_num offset)
  emit (u8 (rex 1 (shr o 3) 0 (shr b 3)))
  emit (0x0f ∷ 0xa3 ∷ [])
  emit (u8 (modrm 3 (o % 8) (b % 8)))

unfoldable pub bts_reg_reg : String → String → Asm (Unit {0})
bts_reg_reg base offset = do
  b ← lift (reg_num base)
  o ← lift (reg_num offset)
  emit (u8 (rex 1 (shr o 3) 0 (shr b 3)))
  emit (0x0f ∷ 0xab ∷ [])
  emit (u8 (modrm 3 (o % 8) (b % 8)))

unfoldable pub btr_reg_reg : String → String → Asm (Unit {0})
btr_reg_reg base offset = do
  b ← lift (reg_num base)
  o ← lift (reg_num offset)
  emit (u8 (rex 1 (shr o 3) 0 (shr b 3)))
  emit (0x0f ∷ 0xb3 ∷ [])
  emit (u8 (modrm 3 (o % 8) (b % 8)))

unfoldable pub btc_reg_reg : String → String → Asm (Unit {0})
btc_reg_reg base offset = do
  b ← lift (reg_num base)
  o ← lift (reg_num offset)
  emit (u8 (rex 1 (shr o 3) 0 (shr b 3)))
  emit (0x0f ∷ 0xbb ∷ [])
  emit (u8 (modrm 3 (o % 8) (b % 8)))

unfoldable pub popcnt_reg_reg : String → String → Asm (Unit {0})
popcnt_reg_reg dst src = do
  d ← lift (reg_num dst)
  s ← lift (reg_num src)
  emit (u8 0xf3)
  emit (u8 (rex 1 (shr d 3) 0 (shr s 3)))
  emit (0x0f ∷ 0xb8 ∷ [])
  emit (u8 (modrm 3 (d % 8) (s % 8)))

unfoldable pub lzcnt_reg_reg : String → String → Asm (Unit {0})
lzcnt_reg_reg dst src = do
  d ← lift (reg_num dst)
  s ← lift (reg_num src)
  emit (u8 0xf3)
  emit (u8 (rex 1 (shr d 3) 0 (shr s 3)))
  emit (0x0f ∷ 0xbd ∷ [])
  emit (u8 (modrm 3 (d % 8) (s % 8)))

unfoldable pub tzcnt_reg_reg : String → String → Asm (Unit {0})
tzcnt_reg_reg dst src = do
  d ← lift (reg_num dst)
  s ← lift (reg_num src)
  emit (u8 0xf3)
  emit (u8 (rex 1 (shr d 3) 0 (shr s 3)))
  emit (0x0f ∷ 0xbc ∷ [])
  emit (u8 (modrm 3 (d % 8) (s % 8)))

unfoldable pub movsxd_reg_reg : String → String → Asm (Unit {0})
movsxd_reg_reg dst src = do
  d ← lift (reg_num dst)
  s ← lift (reg_num src)
  emit (u8 (rex 1 (shr d 3) 0 (shr s 3)))
  emit (u8 0x63)
  emit (u8 (modrm 3 (d % 8) (s % 8)))

unfoldable pub adcx_reg_reg : String → String → Asm (Unit {0})
adcx_reg_reg dst src = do
  d ← lift (reg_num dst)
  s ← lift (reg_num src)
  emit (u8 0x66)
  emit (u8 (rex 1 (shr d 3) 0 (shr s 3)))
  emit (0x0f ∷ 0x38 ∷ 0xf6 ∷ [])
  emit (u8 (modrm 3 (d % 8) (s % 8)))

unfoldable pub adox_reg_reg : String → String → Asm (Unit {0})
adox_reg_reg dst src = do
  d ← lift (reg_num dst)
  s ← lift (reg_num src)
  emit (u8 0xf3)
  emit (u8 (rex 1 (shr d 3) 0 (shr s 3)))
  emit (0x0f ∷ 0x38 ∷ 0xf6 ∷ [])
  emit (u8 (modrm 3 (d % 8) (s % 8)))

unfoldable pub crc32_reg_reg : String → String → Asm (Unit {0})
crc32_reg_reg dst src = do
  d ← lift (reg_num dst)
  s ← lift (reg_num src)
  emit (u8 0xf2)
  emit (u8 (rex 1 (shr d 3) 0 (shr s 3)))
  emit (0x0f ∷ 0x38 ∷ 0xf1 ∷ [])
  emit (u8 (modrm 3 (d % 8) (s % 8)))

unfoldable pub rdrand_reg : String → Asm (Unit {0})
rdrand_reg dst = do
  d ← lift (reg_num dst)
  emit (u8 (rex 1 0 0 (shr d 3)))
  emit (0x0f ∷ 0xc7 ∷ [])
  emit (u8 (modrm 3 6 (d % 8)))

unfoldable pub rdseed_reg : String → Asm (Unit {0})
rdseed_reg dst = do
  d ← lift (reg_num dst)
  emit (u8 (rex 1 0 0 (shr d 3)))
  emit (0x0f ∷ 0xc7 ∷ [])
  emit (u8 (modrm 3 7 (d % 8)))

unfoldable pub movbe_reg_reg : String → String → Asm (Unit {0})
movbe_reg_reg dst src = do
  d ← lift (reg_num dst)
  s ← lift (reg_num src)
  emit (u8 (rex 1 (shr d 3) 0 (shr s 3)))
  emit (0x0f ∷ 0x38 ∷ 0xf0 ∷ [])
  emit (u8 (modrm 3 (d % 8) (s % 8)))

unfoldable pub cmpxchg_reg_reg : String → String → Asm (Unit {0})
cmpxchg_reg_reg dst src = do
  d ← lift (reg_num dst)
  s ← lift (reg_num src)
  emit (u8 (rex 1 (shr s 3) 0 (shr d 3)))
  emit (0x0f ∷ 0xb1 ∷ [])
  emit (u8 (modrm 3 (s % 8) (d % 8)))

unfoldable pub xchg_reg_rax : String → Asm (Unit {0})
xchg_reg_rax r = do n ← lift (reg_num r); emit (u8 (rex 1 0 0 (shr n 3))); emit (u8 (0x90 + n % 8))

unfoldable pub movzx_r64_r8 : String → String → Asm (Unit {0})
movzx_r64_r8 dst src = do
  d ← lift (reg_num dst)
  s ← lift (reg_num src)
  emit (u8 (rex 1 (shr d 3) 0 (shr s 3)))
  emit (0x0f ∷ 0xb6 ∷ [])
  emit (u8 (modrm 3 (d % 8) (s % 8)))

unfoldable pub movzx_r64_r16 : String → String → Asm (Unit {0})
movzx_r64_r16 dst src = do
  d ← lift (reg_num dst)
  s ← lift (reg_num src)
  emit (u8 (rex 1 (shr d 3) 0 (shr s 3)))
  emit (0x0f ∷ 0xb7 ∷ [])
  emit (u8 (modrm 3 (d % 8) (s % 8)))

unfoldable pub movsx_r64_r8 : String → String → Asm (Unit {0})
movsx_r64_r8 dst src = do
  d ← lift (reg_num dst)
  s ← lift (reg_num src)
  emit (u8 (rex 1 (shr d 3) 0 (shr s 3)))
  emit (0x0f ∷ 0xbe ∷ [])
  emit (u8 (modrm 3 (d % 8) (s % 8)))

unfoldable pub movsx_r64_r16 : String → String → Asm (Unit {0})
movsx_r64_r16 dst src = do
  d ← lift (reg_num dst)
  s ← lift (reg_num src)
  emit (u8 (rex 1 (shr d 3) 0 (shr s 3)))
  emit (0x0f ∷ 0xbf ∷ [])
  emit (u8 (modrm 3 (d % 8) (s % 8)))

unfoldable pub bt_reg_imm8 : String → ℤ → Asm (Unit {0})
bt_reg_imm8 base imm = do
  b ← lift (reg_num base)
  emit (u8 (rex 1 0 0 (shr b 3)))
  emit (0x0f ∷ 0xba ∷ [])
  emit (u8 (modrm 3 4 (b % 8)))
  emit (u8 (wrap 0x100 imm))

unfoldable pub bts_reg_imm8 : String → ℤ → Asm (Unit {0})
bts_reg_imm8 base imm = do
  b ← lift (reg_num base)
  emit (u8 (rex 1 0 0 (shr b 3)))
  emit (0x0f ∷ 0xba ∷ [])
  emit (u8 (modrm 3 5 (b % 8)))
  emit (u8 (wrap 0x100 imm))

unfoldable pub btr_reg_imm8 : String → ℤ → Asm (Unit {0})
btr_reg_imm8 base imm = do
  b ← lift (reg_num base)
  emit (u8 (rex 1 0 0 (shr b 3)))
  emit (0x0f ∷ 0xba ∷ [])
  emit (u8 (modrm 3 6 (b % 8)))
  emit (u8 (wrap 0x100 imm))

unfoldable pub btc_reg_imm8 : String → ℤ → Asm (Unit {0})
btc_reg_imm8 base imm = do
  b ← lift (reg_num base)
  emit (u8 (rex 1 0 0 (shr b 3)))
  emit (0x0f ∷ 0xba ∷ [])
  emit (u8 (modrm 3 7 (b % 8)))
  emit (u8 (wrap 0x100 imm))

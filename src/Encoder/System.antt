-- ===== src/Encoder/System.antt =====
-- ACLM/x64enc.py: fixed opcodes and system registers.
use aclmv.Prelude.{ℕ, ◌%◌, String, List, [], ◌∷◌}
use aclmv.Prelude.Bits.{shr}
use aclmv.Encoder.{u8, reg_num, rex, modrm, Asm, ◌>>=◌, ◌>>◌, skip, lift, emit}

unfoldable pub cld : Asm (Unit {0})
cld = emit (0xfc ∷ [])

unfoldable pub std : Asm (Unit {0})
std = emit (0xfd ∷ [])

unfoldable pub raw_bytes : List ℕ → Asm (Unit {0})
raw_bytes bytes = emit bytes

unfoldable pub hlt : Asm (Unit {0})
hlt = emit (0xf4 ∷ [])

unfoldable pub rdtsc : Asm (Unit {0})
rdtsc = emit (0x0f ∷ 0x31 ∷ [])

unfoldable pub cpuid : Asm (Unit {0})
cpuid = emit (0x0f ∷ 0xa2 ∷ [])

unfoldable pub mfence : Asm (Unit {0})
mfence = emit (0x0f ∷ 0xae ∷ 0xf0 ∷ [])

unfoldable pub lfence : Asm (Unit {0})
lfence = emit (0x0f ∷ 0xae ∷ 0xe8 ∷ [])

unfoldable pub sfence : Asm (Unit {0})
sfence = emit (0x0f ∷ 0xae ∷ 0xf8 ∷ [])

unfoldable pub cli : Asm (Unit {0})
cli = emit (0xfa ∷ [])

unfoldable pub sti : Asm (Unit {0})
sti = emit (0xfb ∷ [])

unfoldable pub in_al_dx : Asm (Unit {0})
in_al_dx = emit (0xec ∷ [])

unfoldable pub out_dx_al : Asm (Unit {0})
out_dx_al = emit (0xee ∷ [])

unfoldable pub rep_stosb : Asm (Unit {0})
rep_stosb = emit (0xf3 ∷ 0xaa ∷ [])

unfoldable pub rep_movsb : Asm (Unit {0})
rep_movsb = emit (0xf3 ∷ 0xa4 ∷ [])

unfoldable pub lock_prefix : Asm (Unit {0})
lock_prefix = emit (u8 0xf0)

unfoldable pub rep_prefix : Asm (Unit {0})
rep_prefix = emit (u8 0xf3)

unfoldable pub clc : Asm (Unit {0})
clc = emit (u8 0xf8)

unfoldable pub stc : Asm (Unit {0})
stc = emit (u8 0xf9)

unfoldable pub cmc : Asm (Unit {0})
cmc = emit (u8 0xf5)

unfoldable pub pause : Asm (Unit {0})
pause = emit (0xf3 ∷ 0x90 ∷ [])

unfoldable pub int3 : Asm (Unit {0})
int3 = emit (u8 0xcc)

unfoldable pub ud2 : Asm (Unit {0})
ud2 = emit (0x0f ∷ 0x0b ∷ [])

unfoldable pub cdq : Asm (Unit {0})
cdq = emit (u8 0x99)

unfoldable pub cdqe : Asm (Unit {0})
cdqe = do emit (u8 0x48); emit (u8 0x98)

unfoldable pub pushfq : Asm (Unit {0})
pushfq = emit (u8 0x9c)

unfoldable pub popfq : Asm (Unit {0})
popfq = emit (u8 0x9d)

unfoldable pub rdtscp : Asm (Unit {0})
rdtscp = emit (0x0f ∷ 0x01 ∷ 0xf9 ∷ [])

unfoldable pub endbr64 : Asm (Unit {0})
endbr64 = emit (0xf3 ∷ 0x0f ∷ 0x1e ∷ 0xfa ∷ [])

unfoldable pub cbw : Asm (Unit {0})
cbw = do emit (u8 0x66); emit (u8 0x98)

unfoldable pub cwde : Asm (Unit {0})
cwde = emit (u8 0x98)

unfoldable pub cwd : Asm (Unit {0})
cwd = do emit (u8 0x66); emit (u8 0x99)

unfoldable pub nop_long : Asm (Unit {0})
nop_long = emit (0x0f ∷ 0x1f ∷ 0x00 ∷ [])

unfoldable pub bound_noop : Asm (Unit {0})
bound_noop = skip

unfoldable pub movsx_reg32_reg8 : String → String → Asm (Unit {0})
movsx_reg32_reg8 _ _ = skip

unfoldable pub test_reg_reg8_dummy : Asm (Unit {0})
test_reg_reg8_dummy = skip

unfoldable pub cld_already : Asm (Unit {0})
cld_already = skip

unfoldable pub xgetbv : Asm (Unit {0})
xgetbv = emit (0x0f ∷ 0x01 ∷ 0xd0 ∷ [])

unfoldable pub xsetbv : Asm (Unit {0})
xsetbv = emit (0x0f ∷ 0x01 ∷ 0xd1 ∷ [])

unfoldable pub wrfsbase_reg : String → Asm (Unit {0})
wrfsbase_reg src = do
  s ← lift (reg_num src)
  emit (u8 0xf3)
  emit (u8 (rex 1 0 0 (shr s 3)))
  emit (0x0f ∷ 0xae ∷ [])
  emit (u8 (modrm 3 2 (s % 8)))

unfoldable pub wrgsbase_reg : String → Asm (Unit {0})
wrgsbase_reg src = do
  s ← lift (reg_num src)
  emit (u8 0xf3)
  emit (u8 (rex 1 0 0 (shr s 3)))
  emit (0x0f ∷ 0xae ∷ [])
  emit (u8 (modrm 3 3 (s % 8)))

unfoldable pub rdfsbase_reg : String → Asm (Unit {0})
rdfsbase_reg dst = do
  d ← lift (reg_num dst)
  emit (u8 0xf3)
  emit (u8 (rex 1 0 0 (shr d 3)))
  emit (0x0f ∷ 0xae ∷ [])
  emit (u8 (modrm 3 0 (d % 8)))

unfoldable pub rdgsbase_reg : String → Asm (Unit {0})
rdgsbase_reg dst = do
  d ← lift (reg_num dst)
  emit (u8 0xf3)
  emit (u8 (rex 1 0 0 (shr d 3)))
  emit (0x0f ∷ 0xae ∷ [])
  emit (u8 (modrm 3 1 (d % 8)))

unfoldable pub wbinvd : Asm (Unit {0})
wbinvd = emit (0x0f ∷ 0x09 ∷ [])

unfoldable pub invd : Asm (Unit {0})
invd = emit (0x0f ∷ 0x08 ∷ [])

unfoldable pub clts : Asm (Unit {0})
clts = emit (0x0f ∷ 0x06 ∷ [])

unfoldable pub lar_reg_reg : String → String → Asm (Unit {0})
lar_reg_reg dst src = do
  d ← lift (reg_num dst)
  s ← lift (reg_num src)
  emit (u8 (rex 1 (shr d 3) 0 (shr s 3)))
  emit (0x0f ∷ 0x02 ∷ [])
  emit (u8 (modrm 3 (d % 8) (s % 8)))

unfoldable pub lsl_reg_reg : String → String → Asm (Unit {0})
lsl_reg_reg dst src = do
  d ← lift (reg_num dst)
  s ← lift (reg_num src)
  emit (u8 (rex 1 (shr d 3) 0 (shr s 3)))
  emit (0x0f ∷ 0x03 ∷ [])
  emit (u8 (modrm 3 (d % 8) (s % 8)))

unfoldable pub str_reg : String → Asm (Unit {0})
str_reg dst = do
  d ← lift (reg_num dst)
  emit (u8 (rex 0 0 0 (shr d 3)))
  emit (0x0f ∷ 0x00 ∷ [])
  emit (u8 (modrm 3 1 (d % 8)))

unfoldable pub sldt_reg : String → Asm (Unit {0})
sldt_reg dst = do
  d ← lift (reg_num dst)
  emit (u8 (rex 0 0 0 (shr d 3)))
  emit (0x0f ∷ 0x00 ∷ [])
  emit (u8 (modrm 3 0 (d % 8)))

unfoldable pub smsw_reg : String → Asm (Unit {0})
smsw_reg dst = do
  d ← lift (reg_num dst)
  emit (u8 (rex 0 0 0 (shr d 3)))
  emit (0x0f ∷ 0x01 ∷ [])
  emit (u8 (modrm 3 4 (d % 8)))

unfoldable pub rdmsr : Asm (Unit {0})
rdmsr = emit (0x0f ∷ 0x32 ∷ [])

unfoldable pub wrmsr : Asm (Unit {0})
wrmsr = emit (0x0f ∷ 0x30 ∷ [])

unfoldable pub rdpmc : Asm (Unit {0})
rdpmc = emit (0x0f ∷ 0x33 ∷ [])

unfoldable pub swapgs : Asm (Unit {0})
swapgs = emit (0x0f ∷ 0x01 ∷ 0xf8 ∷ [])

unfoldable pub syscall_sysret : Asm (Unit {0})
syscall_sysret = skip

unfoldable pub sysret : Asm (Unit {0})
sysret = emit (0x48 ∷ 0x0f ∷ 0x07 ∷ [])

unfoldable pub sysenter : Asm (Unit {0})
sysenter = emit (0x0f ∷ 0x34 ∷ [])

unfoldable pub sysexit : Asm (Unit {0})
sysexit = emit (0x0f ∷ 0x35 ∷ [])

unfoldable pub iretq : Asm (Unit {0})
iretq = emit (0x48 ∷ 0xcf ∷ [])

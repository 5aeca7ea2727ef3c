-- ===== src/Encoder/Prefixes.antt =====
-- Prefixes, the REX byte and the opcode as the encoder writes them, read back by the processor's rules.
-- `Encodes` is the statement that the theorems about instructions make.
use aclmv.Prelude.{
  ℕ, ◌+◌, ◌*◌, ◌/◌, ◌%◌, ◌<◌, ◌≡◌, ◌∙◌, ap, true, false, ◌||◌, List, [], ◌∷◌, ◌++◌, arith, ◌==◌,
  some,
}
use aclmv.X86.{
  Instruction, Extension, read_modrm, read_opcode, read_escape, read_rex, is_prefix, decode,
}
use aclmv.Encoder.{u8, rex, Asm}
use aclmv.Encoder.Bytes.{u8_lem, rex_lem}
use aclmv.Encoder.Emits.{Emits}

-- The method returns normally and does nothing but append bytes; these bytes, whatever follows them,
-- are the instruction `i` to the processor, and it reads exactly these bytes.
abbrev pub Encodes : Asm (Unit {0}) → Instruction → Type 0
Encodes m i =
    (bytes : List ℕ) × Emits m bytes × ((rest : List ℕ) → decode (bytes ++ rest) ≡ some (i, rest))

abbrev pub extension : ℕ → ℕ → ℕ → ℕ → ℕ → ℕ → Extension
extension p k w r x b = record { prefix = p; rex = k; w = w; r = r; x = x; b = b }

module _ (w r x b : ℕ) (rest : List ℕ) (hw : w < 2) (hr : r < 2) (hx : x < 2) (hb : b < 2) where
  u8-rex : u8 (rex w r x b) ≡ (64 + 8 * w + 4 * r + 2 * x + b) ∷ []
  u8-rex =
      u8_lem _ (omega (arith, rex_lem w r x b hw hr hx hb))
      ∙ ap (λ t. t ∷ []) (rex_lem w r x b hw hr hx hb)

  pub read_rex-rex :
      (p : ℕ) → read_rex p (u8 (rex w r x b) ++ rest) ≡ read_opcode (extension p 1 w r x b) rest
  unfolding read_rex
  read_rex-rex p =
      let n : ℕ = 64 + 8 * w + 4 * r + 2 * x + b in
      let e0 : (n / 16 == 4) ≡ true = ground arith in
      let e1 : n / 8 % 2 ≡ w = omega arith in
      let e2 : n / 4 % 2 ≡ r = omega arith in
      let e3 : n / 2 % 2 ≡ x = omega arith in
      let e4 : n % 2 ≡ b = omega arith in
      rw (u8-rex, e0) (λ i. read_opcode (extension p 1 (e1 i) (e2 i) (e3 i) (e4 i)) rest)

  pub decode-rex : decode (u8 (rex w r x b) ++ rest) ≡ read_opcode (extension 0 1 w r x b) rest
  unfolding decode
  decode-rex = rw (← read_rex-rex 0) (rw u8-rex (ground arith))

-- A legacy prefix before the REX byte.
pub decode-prefix :
    (p : ℕ) (rest : List ℕ) → is_prefix p ≡ true → decode (p ∷ rest) ≡ read_rex p rest
unfolding decode
decode-prefix p rest h = rw h

module _ (e : Extension) (opcode : ℕ) (rest : List ℕ) (small : opcode < 256) where
  pub read_opcode-one :
      (opcode == 0x0f) ≡ false → read_opcode e (u8 opcode ++ rest) ≡ read_modrm e 0 opcode rest
  unfolding read_opcode
  read_opcode-one h = rw (u8_lem opcode small, h)

  pub read_opcode-escape :
      (opcode == 0x38 || opcode == 0x3a) ≡ false
      → read_opcode e (0x0f ∷ (u8 opcode ++ rest)) ≡ read_modrm e 1 opcode rest
  unfolding read_opcode read_escape
  read_opcode-escape h = rw (u8_lem opcode small) (ground arith)

-- Without a REX byte: the opcode's byte is no prefix and no REX.
pub read_rex-none :
    (p c : ℕ) (rest : List ℕ)
    → (c / 16 == 4) ≡ false
    → read_rex p (c ∷ rest) ≡ read_opcode (extension p 0 0 0 0 0) (c ∷ rest)
unfolding read_rex
read_rex-none p c rest h = rw h

pub decode-none :
    (c : ℕ) (rest : List ℕ)
    → is_prefix c ≡ false
    → (c / 16 == 4) ≡ false
    → decode (c ∷ rest) ≡ read_opcode (extension 0 0 0 0 0 0) (c ∷ rest)
unfolding decode
decode-none c rest h k = rw h (read_rex-none 0 c rest k)

pub decode-opcode :
    (c : ℕ) (rest : List ℕ)
    → c < 256
    → is_prefix c ≡ false
    → (c / 16 == 4) ≡ false
    → decode (u8 c ++ rest) ≡ read_opcode (extension 0 0 0 0 0 0) (u8 c ++ rest)
decode-opcode c rest small h k = rw (u8_lem c small) (decode-none c rest h k)

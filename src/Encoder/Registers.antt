-- ===== src/Encoder/Registers.antt =====
-- The instructions between two registers, and on one: the byte sequences that the methods emit, read back
-- by the processor's rules. The tables of methods are in the modules below.
pub mod Pairs
pub mod Single
use aclmv.Prelude.{
  ℕ, ◌+◌, ◌*◌, ◌/◌, ◌%◌, ◌^◌, ◌<◌, ◌≤◌, ◌≡◌, ◌≢◌, ◌∙◌, refl, sym, ap, Bool, true, false, ◌||◌, List,
  [], ◌∷◌, ◌++◌, arith, ◌==◌, Option, none, some, append_assoc, ap₂,
}
use aclmv.Prelude.Bits.{shr}
use aclmv.X86.{
  Instruction, Extension, register, read_modrm, read_opcode, read_escape, read_map, read_rex,
  is_prefix, decode,
}
use aclmv.Encoder.{Result, ok, u8, rex, modrm, Asm, ◌>>=◌, ◌>>◌, emit, lift}
use aclmv.Encoder.Bytes.{u8_lem}
use aclmv.Encoder.Emits.{Emits, Emits-emit, Emits-seq, Emits-lift}
use aclmv.Encoder.ReadBack.{read_modrm-register}
use aclmv.Encoder.Prefixes.{
  Encodes, extension, decode-rex, read_rex-rex, decode-prefix, read_opcode-one, read_opcode-escape,
}

-- A 64-bit instruction with the register numbers `r` in ModRM.reg and `b` in ModRM.rm.
abbrev pub between : ℕ → ℕ → ℕ → ℕ → ℕ → Instruction
between prefix opmap opcode r b = record {
  prefix = prefix;
  rex = 1;
  w = 1;
  opmap = opmap;
  opcode = opcode;
  reg = r;
  rm = register b;
}

pub Encodes-lift :
    {A : Type 0} {e : Result A} {x : A} (f : A → Asm (Unit {0})) {i : Instruction}
    → e ≡ ok x
    → Encodes (f x) i
    → Encodes (lift e >>= f) i
Encodes-lift f h (bytes, emits, back) = (bytes, Emits-lift f h emits, back)

module _ (r b : ℕ) (hr : r < 16) (hb : b < 16) where
  abbrev rex_bytes : List ℕ
  rex_bytes = u8 (rex 1 (shr r 3) 0 (shr b 3))

  abbrev modrm_bytes : List ℕ
  modrm_bytes = u8 (modrm 3 (r % 8) (b % 8))

  abbrev rr_ext : ℕ → Extension
  rr_ext p = extension p 1 1 (shr r 3) 0 (shr b 3)

  read_registers :
      (p opmap opcode : ℕ) (rest : List ℕ)
      → read_modrm (rr_ext p) opmap opcode (modrm_bytes ++ rest)
        ≡ some (between p opmap opcode r b, rest)
  read_registers p opmap opcode rest =
      read_modrm-register (rr_ext p) opmap opcode (r % 8) (b % 8) rest (omega arith) (omega arith)
      ∙ ap₂ (λ x y. some (between p opmap opcode x y, rest)) (omega arith) (omega arith)

  read_rr_rex :
      (p : ℕ) (rest : List ℕ) → read_rex p (rex_bytes ++ rest) ≡ read_opcode (rr_ext p) rest
  read_rr_rex p rest =
      read_rex-rex 1 (shr r 3) 0 (shr b 3) rest (omega arith) (omega arith) (omega arith)
        (omega arith) p

  decode_rr_rex : (rest : List ℕ) → decode (rex_bytes ++ rest) ≡ read_opcode (rr_ext 0) rest
  decode_rr_rex rest =
      decode-rex 1 (shr r 3) 0 (shr b 3) rest (omega arith) (omega arith) (omega arith)
        (omega arith)

  -- REX.W, a one-byte opcode, ModRM.
  pub one_byte :
      (opcode : ℕ)
      → opcode < 256
      → (opcode == 0x0f) ≡ false
      → Encodes (emit rex_bytes >> (emit (u8 opcode) >> emit modrm_bytes)) (between 0 0 opcode r b)
  one_byte opcode small one = (
    rex_bytes ++ (u8 opcode ++ modrm_bytes),
    Emits-seq (Emits-emit _) (Emits-seq (Emits-emit _) (Emits-emit _)),
    λ rest. rw append_assoc (
        rw append_assoc (
          decode_rr_rex _
          ∙ read_opcode-one (rr_ext 0) opcode _ small one
          ∙ read_registers 0 0 opcode rest)),
  )

  read_two :
      (p opcode : ℕ) (rest : List ℕ)
      → opcode < 256
      → (opcode == 0x38 || opcode == 0x3a) ≡ false
      → read_opcode (rr_ext p) (0x0f ∷ opcode ∷ (modrm_bytes ++ rest))
        ≡ some (between p 1 opcode r b, rest)
  read_two p opcode rest small one =
      rw (u8_lem opcode small) at
        (read_opcode-escape (rr_ext p) opcode (modrm_bytes ++ rest) small one)
      ∙ read_registers p 1 opcode rest

  -- REX.W, 0F and an opcode, ModRM; the two opcode bytes together or apart.
  pub two_bytes :
      (opcode : ℕ)
      → opcode < 256
      → (opcode == 0x38 || opcode == 0x3a) ≡ false
      → Encodes
          (emit rex_bytes >> (emit (0x0f ∷ opcode ∷ []) >> emit modrm_bytes))
          (between 0 1 opcode r b)
  two_bytes opcode small one = (
    rex_bytes ++ ((0x0f ∷ opcode ∷ []) ++ modrm_bytes),
    Emits-seq (Emits-emit _) (Emits-seq (Emits-emit _) (Emits-emit _)),
    λ rest. rw append_assoc (decode_rr_rex _ ∙ read_two 0 opcode rest small one),
  )

  pub two_bytes_apart :
      (opcode : ℕ)
      → opcode < 256
      → (opcode == 0x38 || opcode == 0x3a) ≡ false
      → Encodes
          (emit rex_bytes >> (emit (0x0f ∷ []) >> (emit (u8 opcode) >> emit modrm_bytes)))
          (between 0 1 opcode r b)
  two_bytes_apart opcode small one = (
    rex_bytes ++ ((0x0f ∷ []) ++ (u8 opcode ++ modrm_bytes)),
    Emits-seq (Emits-emit _) (Emits-seq (Emits-emit _) (Emits-seq (Emits-emit _) (Emits-emit _))),
    λ rest.
        rw append_assoc
          (rw (u8_lem opcode small) (decode_rr_rex _ ∙ read_two 0 opcode rest small one)),
  )

  -- The same behind a mandatory prefix.
  pub prefixed :
      (p opcode : ℕ)
      → p < 256
      → is_prefix p ≡ true
      → opcode < 256
      → (opcode == 0x38 || opcode == 0x3a) ≡ false
      → Encodes
          (emit (u8 p) >> (emit rex_bytes >> (emit (0x0f ∷ opcode ∷ []) >> emit modrm_bytes)))
          (between p 1 opcode r b)
  prefixed p opcode hp is small one = (
    u8 p ++ (rex_bytes ++ ((0x0f ∷ opcode ∷ []) ++ modrm_bytes)),
    Emits-seq (Emits-emit _) (Emits-seq (Emits-emit _) (Emits-seq (Emits-emit _) (Emits-emit _))),
    λ rest. rw (u8_lem p hp) (
        rw append_assoc (
          rw append_assoc
            (decode-prefix p _ is ∙ read_rr_rex p _ ∙ read_two p opcode rest small one))),
  )

  -- And with an opcode of the map 0F 38.
  pub prefixed_38 :
      (p opcode : ℕ)
      → p < 256
      → is_prefix p ≡ true
      → Encodes
          (emit (u8 p)
            >> (emit rex_bytes >> (emit (0x0f ∷ 0x38 ∷ opcode ∷ []) >> emit modrm_bytes)))
          (between p 2 opcode r b)
  unfolding read_opcode read_escape read_map
  prefixed_38 p opcode hp is = (
    u8 p ++ (rex_bytes ++ ((0x0f ∷ 0x38 ∷ opcode ∷ []) ++ modrm_bytes)),
    Emits-seq (Emits-emit _) (Emits-seq (Emits-emit _) (Emits-seq (Emits-emit _) (Emits-emit _))),
    λ rest. rw (u8_lem p hp) (
        rw append_assoc (
          rw append_assoc
            (decode-prefix p _ is ∙ read_rr_rex p _ ∙ read_registers p 2 opcode rest))),
  )

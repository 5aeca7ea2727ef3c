-- ===== src/Encoder/Memory/Access.antt =====
-- The loads and stores of the encoder are the instructions that their comments name.
use aclmv.Prelude.{
  ℕ, ◌<◌, ◌≡◌, ◌∙◌, refl, ap, false, ◌||◌, List, [], ◌∷◌, ◌++◌, arith, ◌==◌, Option, some, String,
  append_assoc,
}
use aclmv.Prelude.Int.{ℤ}
use aclmv.Prelude.Bits.{shr}
use aclmv.X86.{Extension, read_rex, Instruction, memory, decode, read_modrm, read_opcode}
use aclmv.Encoder.{u8, rex}
use aclmv.Encoder.Bytes.{reg_num-lt}
use aclmv.Encoder.Emits.{Emits-emit, Emits-seq, Emits-lift}
use aclmv.Encoder.Prefixes.{
  Encodes, extension, decode-rex, read_rex-rex, read_opcode-one, read_opcode-escape,
}
use aclmv.Encoder.Memory.{emit_mem_op, emit_mem_op_0f}
use aclmv.Encoder.Memory.Decode.{
  index_read, Resolves, rex_x_of, rex_x_of-lt, sib_fields_lem, tail_bytes, read_tail, Emits-tail,
}

module _ {reg base : String} {index : Option String} {scale : ℕ} {disp : ℤ} {r b : ℕ}
    {idx : Option ℕ} (h : Resolves reg base index scale disp r b idx) where
  abbrev pub rex_byte : ℕ → List ℕ
  rex_byte w = u8 (rex w (shr r 3) (rex_x_of idx) (shr b 3))

  abbrev pub ext : ℕ → ℕ → ℕ → Extension
  ext p k w = extension p k w (shr r 3) (rex_x_of idx) (shr b 3)

  -- The instruction: mandatory prefix, REX byte, REX.W, map, opcode, and the operands that the names
  -- stand for.
  abbrev pub access : ℕ → ℕ → ℕ → ℕ → ℕ → Instruction
  access p k w opmap opcode = record {
    prefix = p;
    rex = k;
    w = w;
    opmap = opmap;
    opcode = opcode;
    reg = r;
    rm = memory b (index_read idx scale) disp;
  }

  whole_register :
      (p k w opmap opcode : ℕ) (rest : List ℕ)
      → read_modrm (ext p k w) opmap opcode (tail_bytes h ++ rest)
        ≡ some (access p k w opmap opcode, rest)
  whole_register p k w opmap opcode rest =
      read_tail h (ext p k w) opmap opcode rest refl refl
      ∙ ap
          (λ t. some (
            record {
              prefix = p;
              rex = k;
              w = w;
              opmap = opmap;
              opcode = opcode;
              reg = t;
              rm = memory b (index_read idx scale) disp;
            },
            rest,
          ))
          (omega arith)

  -- The opcode and what follows.
  abbrev pub short_bytes : ℕ → List ℕ
  short_bytes opcode = u8 opcode ++ tail_bytes h

  pub read_short :
      (p k w opcode : ℕ) (rest : List ℕ)
      → opcode < 256
      → (opcode == 0x0f) ≡ false
      → read_opcode (ext p k w) (short_bytes opcode ++ rest) ≡ some (access p k w 0 opcode, rest)
  read_short p k w opcode rest small one =
      rw append_assoc
        (read_opcode-one (ext p k w) opcode _ small one ∙ whole_register p k w 0 opcode rest)

  pub read_escaped :
      (p k w opcode : ℕ) (rest : List ℕ)
      → opcode < 256
      → (opcode == 0x38 || opcode == 0x3a) ≡ false
      → read_opcode (ext p k w) (0x0f ∷ (short_bytes opcode ++ rest))
        ≡ some (access p k w 1 opcode, rest)
  read_escaped p k w opcode rest small one =
      rw append_assoc
        (read_opcode-escape (ext p k w) opcode _ small one ∙ whole_register p k w 1 opcode rest)

  -- The REX byte before any opcode.
  pub read_rex_byte :
      (p w : ℕ) (rest : List ℕ)
      → w < 2
      → read_rex p (rex_byte w ++ rest) ≡ read_opcode (ext p 1 w) rest
  read_rex_byte p w rest hw =
      read_rex-rex w (shr r 3) (rex_x_of idx) (shr b 3) _ hw
        (omega (arith, reg_num-lt reg h.reg_is)) (rex_x_of-lt index scale idx h.index_is)
        (omega (arith, reg_num-lt base h.base_is)) p

  pub decode-rex_byte :
      (w : ℕ) (rest : List ℕ) → w < 2 → decode (rex_byte w ++ rest) ≡ read_opcode (ext 0 1 w) rest
  decode-rex_byte w rest hw =
      decode-rex w (shr r 3) (rex_x_of idx) (shr b 3) _ hw (omega (arith, reg_num-lt reg h.reg_is))
        (rex_x_of-lt index scale idx h.index_is) (omega (arith, reg_num-lt base h.base_is))

  pub emit_mem_op-Encodes :
      (opcode : ℕ)
      → opcode < 256
      → (opcode == 0x0f) ≡ false
      → Encodes (emit_mem_op opcode reg base disp index scale) (access 0 1 1 0 opcode)
  unfolding emit_mem_op
  emit_mem_op-Encodes opcode small one = (
    rex_byte 1 ++ short_bytes opcode,
    Emits-lift _ h.reg_is (
        Emits-lift _ h.base_is (
          Emits-lift _ (sib_fields_lem index scale b idx h.index_is)
            (Emits-seq (Emits-emit _) (Emits-seq (Emits-emit _) (Emits-tail h))))),
    λ rest.
        rw append_assoc
          (decode-rex_byte 1 _ (omega arith) ∙ read_short 0 1 1 opcode rest small one),
  )

  pub emit_mem_op_0f-Encodes :
      (opcode : ℕ)
      → opcode < 256
      → (opcode == 0x38 || opcode == 0x3a) ≡ false
      → Encodes (emit_mem_op_0f opcode reg base disp index scale) (access 0 1 1 1 opcode)
  unfolding emit_mem_op_0f
  emit_mem_op_0f-Encodes opcode small one = (
    rex_byte 1 ++ ((0x0f ∷ []) ++ short_bytes opcode),
    Emits-lift _ h.reg_is (
        Emits-lift _ h.base_is (
          Emits-lift _ (sib_fields_lem index scale b idx h.index_is) (
            Emits-seq (Emits-emit _)
              (Emits-seq (Emits-emit _) (Emits-seq (Emits-emit _) (Emits-tail h)))))),
    λ rest.
        rw append_assoc
          (decode-rex_byte 1 _ (omega arith) ∙ read_escaped 0 1 1 opcode rest small one),
  )

-- ===== src/Encoder/Memory/Narrow.antt =====
-- The loads and stores with an optional REX byte: 32-bit loads, and stores of 8, 16 and 32 bits.
use aclmv.Prelude.{
  ℕ, ◌/◌, ◌<◌, ◌≡◌, ◌∙◌, refl, Bool, true, false, not, ◌||◌, List, [], ◌∷◌, ◌++◌, arith, ◌==◌, leb,
  if◌then◌else◌, Option, some, String, append_assoc,
}
use aclmv.Prelude.Int.{ℤ}
use aclmv.Prelude.Bits.{shr}
use aclmv.X86.{decode, is_prefix}
use aclmv.Encoder.{Asm, skip, ◌>>◌}
use aclmv.Encoder.Emits.{
  Emits, Emits-emit, Emits-skip, Emits-seq, Emits-lift, Emits-if, Emits-if_eq,
}
use aclmv.Encoder.Prefixes.{Encodes, extension, decode-prefix, decode-opcode}
use aclmv.Encoder.Memory.{emit_mem_op_sized, mov32_reg_mem}
use aclmv.Encoder.Memory.Decode.{Resolves, rex_x_of, sib_fields_lem, Emits-tail}
use aclmv.Encoder.Memory.Access.{
  rex_byte, ext, access, short_bytes, read_short, read_rex_byte, decode-rex_byte,
}

or_true : (c : Bool) → (c || true) ≡ true
or_true c = ground arith

or_regroup : (l a b c : Bool) → (l || a || b || c || false) ≡ (l || (a || b || c))
or_regroup l a b c = ground arith

or-eq_false : (c d : Bool) → (c || d) ≡ false → d ≡ false
or-eq_false c d h = ground arith

-- A first step that does nothing.
emit_nothing : {m : Asm (Unit {0})} {a : List ℕ} → Emits m a → Emits (skip >> m) a
emit_nothing h = Emits-seq Emits-skip h

module _ {reg base : String} {index : Option String} {scale : ℕ} {disp : ℤ} {r b : ℕ}
    {idx : Option ℕ} (h : Resolves reg base index scale disp r b idx) where
  -- A register number above 7 among the three operands.
  abbrev pub extended : Bool
  extended = leb 8 r || leb 8 b || not (rex_x_of idx == 0)

  plain_ext : extended ≡ false → (k w : ℕ) → ext h 0 k w ≡ extension 0 k w 0 0 0
  plain_ext e k w =
      let er : shr r 3 ≡ 0 = ground arith in
      let ex : rex_x_of idx ≡ 0 = ground arith in
      let eb : shr b 3 ≡ 0 = ground arith in λ i. extension 0 k w (er i) (ex i) (eb i)

  decode_plain :
      (opcode : ℕ) (rest : List ℕ)
      → opcode < 256
      → (opcode == 0x0f) ≡ false
      → is_prefix opcode ≡ false
      → (opcode / 16 == 4) ≡ false
      → extended ≡ false
      → decode (short_bytes h opcode ++ rest) ≡ some (access h 0 0 0 0 opcode, rest)
  decode_plain opcode rest small one np nr e =
      let back = read_short h 0 0 0 opcode rest small one in
      rw append_assoc
        (decode-opcode opcode _ small np nr ∙ rw (plain_ext e 0 0, append_assoc) at back)

  -- With the REX byte that `c` asks for.
  decode_optional :
      (c : Bool) (opcode : ℕ) (rest : List ℕ)
      → opcode < 256
      → (opcode == 0x0f) ≡ false
      → is_prefix opcode ≡ false
      → (opcode / 16 == 4) ≡ false
      → (c ≡ false → extended ≡ false)
      → decode (((if c then rex_byte h 0 else []) ++ short_bytes h opcode) ++ rest)
        ≡ some (access h 0 (if c then 1 else 0) 0 0 opcode, rest)
  decode_optional true opcode rest small one np nr e =
      rw append_assoc
        (decode-rex_byte h 0 _ (omega arith) ∙ read_short h 0 1 0 opcode rest small one)
  decode_optional false opcode rest small one np nr e =
      decode_plain opcode rest small one np nr (e refl)

  pub mov32_reg_mem-Encodes :
      Encodes
        (mov32_reg_mem reg base disp index scale)
        (access h 0 (if extended then 1 else 0) 0 0 0x8b)
  unfolding mov32_reg_mem
  mov32_reg_mem-Encodes = (
    (if extended then rex_byte h 0 else []) ++ short_bytes h 0x8b,
    Emits-lift _ h.reg_is (
        Emits-lift _ h.base_is (
          Emits-lift _ (sib_fields_lem index scale b idx h.index_is) (
            Emits-seq (Emits-if extended (Emits-emit _) Emits-skip)
              (Emits-seq (Emits-emit _) (Emits-tail h))))),
    λ rest. decode_optional extended 0x8b rest (omega arith) refl refl refl (λ e. e),
  )

  -- The byte store needs a REX byte for the low bytes of rsp, rbp, rsi and rdi too.
  abbrev pub extended_byte : Bool
  extended_byte = (r == 4 || r == 5 || r == 6 || r == 7) || extended

  pub store8-Encodes :
      (opcode : ℕ)
      → opcode < 256
      → (opcode == 0x0f) ≡ false
      → is_prefix opcode ≡ false
      → (opcode / 16 == 4) ≡ false
      → Encodes
          (emit_mem_op_sized opcode reg base disp index scale 8)
          (access h 0 (if extended_byte then 1 else 0) 0 0 opcode)
  unfolding emit_mem_op_sized
  store8-Encodes opcode small one np nr = (
    (if extended_byte then rex_byte h 0 else []) ++ short_bytes h opcode,
    Emits-lift _ h.reg_is (
        Emits-lift _ h.base_is (
          Emits-lift _ (sib_fields_lem index scale b idx h.index_is) (
            emit_nothing (
              Emits-seq
                (Emits-if_eq extended_byte
                  (or_regroup (r == 4 || r == 5 || r == 6 || r == 7) (leb 8 r) (leb 8 b)
                    (not (rex_x_of idx == 0)))
                  (Emits-emit _) Emits-skip)
                (Emits-seq (Emits-emit _) (Emits-tail h)))))),
    λ rest. decode_optional extended_byte opcode rest small one np nr (or-eq_false _ _),
  )

  pub store16-Encodes :
      (opcode : ℕ)
      → opcode < 256
      → (opcode == 0x0f) ≡ false
      → Encodes (emit_mem_op_sized opcode reg base disp index scale 16) (access h 0x66 1 0 0 opcode)
  unfolding emit_mem_op_sized
  store16-Encodes opcode small one = (
    (0x66 ∷ []) ++ (rex_byte h 0 ++ short_bytes h opcode),
    Emits-lift _ h.reg_is (
        Emits-lift _ h.base_is (
          Emits-lift _ (sib_fields_lem index scale b idx h.index_is) (
            Emits-seq (Emits-emit _) (
              Emits-seq (Emits-if_eq true (or_true _) (Emits-emit _) Emits-skip)
                (Emits-seq (Emits-emit _) (Emits-tail h)))))),
    λ rest.
        decode-prefix 0x66 _ refl
        ∙ rw append_assoc
            (read_rex_byte h 0x66 0 _ (omega arith) ∙ read_short h 0x66 1 0 opcode rest small one),
  )

  pub store32-Encodes :
      (opcode : ℕ)
      → opcode < 256
      → (opcode == 0x0f) ≡ false
      → Encodes (emit_mem_op_sized opcode reg base disp index scale 32) (access h 0 1 0 0 opcode)
  unfolding emit_mem_op_sized
  store32-Encodes opcode small one = (
    rex_byte h 0 ++ short_bytes h opcode,
    Emits-lift _ h.reg_is (
        Emits-lift _ h.base_is (
          Emits-lift _ (sib_fields_lem index scale b idx h.index_is) (
            emit_nothing (
              Emits-seq (Emits-if_eq true (or_true _) (Emits-emit _) Emits-skip)
                (Emits-seq (Emits-emit _) (Emits-tail h)))))),
    λ rest.
        rw append_assoc
          (decode-rex_byte h 0 _ (omega arith) ∙ read_short h 0 1 0 opcode rest small one),
  )

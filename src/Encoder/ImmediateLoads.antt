-- ===== src/Encoder/ImmediateLoads.antt =====
-- `mov_reg_imm64` loads the value that it is given, whichever form it chooses.
use aclmv.Prelude.{
  ℕ, zero, suc, ◌+◌, ◌-◌, ◌*◌, ◌/◌, ◌%◌, ◌^◌, ◌<◌, ◌≤◌, ◌≡◌, ◌∙◌, refl, ap, ap₂, true, false, List,
  [], ◌∷◌, ◌++◌, length, arith, ltb, leb, ◌==◌, if◌then◌else◌, Option, some, String, Bool-cases,
  inl, inr,
}
use native.Mathlib.Nat.{pow-suc}
use aclmv.Prelude.Int.{ℤ, pos, wrap, wrap64-lt, sub_ℕ, fits}
use aclmv.Prelude.Bits.{shr}
use aclmv.X86.Immediate.{read_le, read_mov_imm, sign_extend32, loaded, same}
use aclmv.Encoder.{ok, le_bytes, u8, u32, u64, reg_num, rex, modrm, Asm, Assembler}
use aclmv.Encoder.Bytes.{u8_lem, modrm_lem, rex_lem, reg_num-lt}
use aclmv.Encoder.Emits.{Emits, Emits-emit, Emits-seq, Emits-lift, Emits-if, Emits-skip, emitted}
use aclmv.Encoder.Move.{emit_imm64, emit_imm32, emit_simm32, mov_imm, mov_reg_imm64}

read_le-le_bytes :
    (n v : ℕ) (rest : List ℕ) → v < 256 ^ n → read_le n (le_bytes n v ++ rest) ≡ some (v, rest)
unfolding read_le le_bytes
read_le-le_bytes zero v rest h = ap (λ t. some (t, rest)) (omega arith)
read_le-le_bytes (suc n) v rest h =
    let small : v / 256 < 256 ^ n = omega (arith, pow-suc 256 n) in
    rw (read_le-le_bytes n (v / 256) rest small) (ap (λ t. some (t, rest)) (omega arith))

-- The method returns normally and only appends bytes; these, whatever follows them, are a `mov` that
-- loads `value` into the register with number `d`.
abbrev pub Loads : Asm (Unit {0}) → ℕ → ℕ → Type 0
Loads m d value =
    (bytes : List ℕ) × Emits m bytes
    × ((rest : List ℕ) → read_mov_imm (bytes ++ rest) ≡ some (d, value, rest))

read_wide :
    (b k : ℕ) (rest : List ℕ)
    → b < 2
    → k < 8
    → read_mov_imm ((72 + b) ∷ (0xb8 + k) ∷ rest) ≡ loaded (k + 8 * b) same (read_le 8 rest)
unfolding read_mov_imm
read_wide b k rest hb hk = ground arith

read_narrow :
    (k : ℕ) (rest : List ℕ)
    → k < 8
    → read_mov_imm ((0xb8 + k) ∷ rest) ≡ loaded k same (read_le 4 rest)
unfolding read_mov_imm
read_narrow k rest hk = ground arith

read_narrow_ext :
    (k : ℕ) (rest : List ℕ)
    → k < 8
    → read_mov_imm (0x41 ∷ (0xb8 + k) ∷ rest) ≡ loaded (k + 8) same (read_le 4 rest)
unfolding read_mov_imm
read_narrow_ext k rest hk = ground arith

read_signed :
    (b k : ℕ) (rest : List ℕ)
    → b < 2
    → k < 8
    → read_mov_imm ((72 + b) ∷ 0xc7 ∷ (192 + k) ∷ rest)
      ≡ loaded (k + 8 * b) sign_extend32 (read_le 4 rest)
unfolding read_mov_imm
read_signed b k rest hb hk = ground arith

module _ (d imm : ℕ) (hd : d < 16) where
  rex_w : u8 (rex 1 0 0 (shr d 3)) ≡ (72 + shr d 3) ∷ []
  rex_w =
      let e = rex_lem 1 0 0 (shr d 3) (omega arith) (omega arith) (omega arith) (omega arith) in
      u8_lem _ (omega (arith, e)) ∙ ap (λ t. t ∷ []) (omega (arith, e))

  opcode_b8 : u8 (0xb8 + d % 8) ≡ (0xb8 + d % 8) ∷ []
  opcode_b8 = u8_lem _ (omega arith)

  -- The register's number from its low bits and the REX bit.
  abbrev load : ℕ → ℕ → List ℕ → Option (ℕ × ℕ × List ℕ)
  load reg value rest = some (reg, value, rest)

  emit_imm64-Loads : imm < 2 ^ 64 → Loads (emit_imm64 d imm) d imm
  unfolding emit_imm64 u64
  emit_imm64-Loads h =
      let e : imm % 2 ^ 64 ≡ imm = omega arith in
      (
        u8 (rex 1 0 0 (shr d 3)) ++ (u8 (0xb8 + d % 8) ++ u64 (pos imm)),
        Emits-seq (Emits-emit _) (Emits-seq (Emits-emit _) (Emits-emit _)),
        λ rest.
            rw (rex_w, opcode_b8, e)
              (read_wide (shr d 3) (d % 8) (le_bytes 8 imm ++ rest) (omega arith) (omega arith)
                ∙ rw (read_le-le_bytes 8 imm rest (omega arith))
                    (ap (λ t. load t imm rest) (omega arith))),
      )

  emit_imm32-Loads : imm < 2 ^ 32 → Loads (emit_imm32 d imm) d imm
  unfolding emit_imm32 u32
  emit_imm32-Loads h =
      let e : imm % 2 ^ 32 ≡ imm = omega arith in
      let value = read_le-le_bytes 4 imm in
      (
        (if leb 8 d then u8 0x41 else []) ++ (u8 (0xb8 + d % 8) ++ u32 (pos imm)),
        Emits-seq (Emits-if (leb 8 d) (Emits-emit _) Emits-skip)
            (Emits-seq (Emits-emit _) (Emits-emit _)),
        λ rest. elim (Bool-cases (leb 8 d)) [
          | inl q ↦
              rw (q, opcode_b8, u8_lem 0x41 (omega arith), e)
                (read_narrow_ext (d % 8) (le_bytes 4 imm ++ rest) (omega arith)
                  ∙ rw (value rest (omega arith)) (ap (λ t. load t imm rest) (ground (arith, q))))
          | inr q ↦
              rw (q, opcode_b8, e)
                (read_narrow (d % 8) (le_bytes 4 imm ++ rest) (omega arith)
                  ∙ rw (value rest (omega arith)) (ap (λ t. load t imm rest) (ground (arith, q))))
        ],
      )

  -- The low half of a word whose upper 33 bits are ones.
  emit_simm32-Loads :
      0xffff_ffff_8000_0000 ≤ imm → imm < 2 ^ 64 → Loads (emit_simm32 d (sub_ℕ imm (2 ^ 64))) d imm
  unfolding emit_simm32 u32
  emit_simm32-Loads lo hi =
      let w : ℕ = imm - 0xffff_ffff_0000_0000 in
      let e : wrap (2 ^ 32) (sub_ℕ imm (2 ^ 64)) ≡ w = ground arith in
      let m : u8 (modrm 3 0 (d % 8)) ≡ (192 + d % 8) ∷ [] =
        u8_lem _ (omega (arith, modrm_lem 3 0 (d % 8) (omega arith) (omega arith) (omega arith)))
        ∙ ap (λ t. t ∷ [])
            (omega (arith, modrm_lem 3 0 (d % 8) (omega arith) (omega arith) (omega arith))) in
      (
        u8 (rex 1 0 0 (shr d 3))
            ++ (u8 0xc7 ++ (u8 (modrm 3 0 (d % 8)) ++ u32 (sub_ℕ imm (2 ^ 64)))),
        Emits-seq (Emits-emit _)
            (Emits-seq (Emits-emit _) (Emits-seq (Emits-emit _) (Emits-emit _))),
        λ rest.
            rw (rex_w, u8_lem 0xc7 (omega arith), m, e)
              (read_signed (shr d 3) (d % 8) (le_bytes 4 w ++ rest) (omega arith) (omega arith)
                ∙ rw (read_le-le_bytes 4 w rest (omega arith))
                    (ap₂ (λ t v. load t v rest) (omega arith) (ground arith))),
      )

mov_imm-Loads : (s : Assembler) (d imm : ℕ) → d < 16 → imm < 2 ^ 64 → Loads (mov_imm s d imm) d imm
unfolding mov_imm
mov_imm-Loads s d imm hd h = elim (Bool-cases s.deterministic) [
  | inl e ↦ rw e (emit_imm64-Loads d imm hd h)
  | inr e ↦ elim (Bool-cases (imm == 0)) [
    | inl z ↦
        rw (e, z)
          (let z' : imm ≡ 0 = ground (arith, z) in rw z' (emit_imm32-Loads d 0 hd (omega arith)))
    | inr z ↦ elim (Bool-cases (leb imm 0xffff_ffff)) [
      | inl n ↦ rw (e, z, n) (emit_imm32-Loads d imm hd (ground (arith, n)))
      | inr n ↦ elim (Bool-cases (leb 0xffff_ffff_8000_0000 imm)) [
        | inl g ↦
            let l : ltb imm 0x8000_0000 ≡ false = ground (arith, n) in
            let f : fits (2 ^ 31) (sub_ℕ imm (2 ^ 64)) ≡ true = ground (arith, g) in
            rw (e, z, n, g, l, f) (emit_simm32-Loads d imm hd (ground (arith, g)) h)
        | inr g ↦
            let l : ltb imm 0x8000_0000 ≡ false = ground (arith, n) in
            rw (e, z, n, g, l) (emit_imm64-Loads d imm hd h)
      ]
    ]
  ]
]

-- For a known register `mov_reg_imm64` returns and only appends bytes; the processor reads these, whatever
-- follows them, as a `mov` that loads the argument modulo 2 ^ 64 into the register.
pub mov_reg_imm64_lem :
    (dst : String) (imm : ℤ) (s : Assembler) {d : ℕ}
    → reg_num dst ≡ ok d
    → (bytes : List ℕ) × (mov_reg_imm64 dst imm s ≡ ok (tt, emitted s bytes))
      × ((rest : List ℕ) → read_mov_imm (bytes ++ rest) ≡ some (d, wrap (2 ^ 64) imm, rest))
unfolding mov_reg_imm64
mov_reg_imm64_lem dst imm s {d} h =
    let (bytes, emits, back) =
      mov_imm-Loads s d (wrap (2 ^ 64) imm) (reg_num-lt dst h) (wrap64-lt imm) in
    (bytes, (Emits-lift (λ d. mov_imm s d (wrap (2 ^ 64) imm)) h emits).at s, back)

mov_imm-wide :
    (s : Assembler) (d imm : ℕ)
    → s.deterministic ≡ true
    → Emits (mov_imm s d imm) (u8 (rex 1 0 0 (shr d 3)) ++ (u8 (0xb8 + d % 8) ++ u64 (pos imm)))
unfolding mov_imm
mov_imm-wide s d imm e = rw e (Emits-seq (Emits-emit _) (Emits-seq (Emits-emit _) (Emits-emit _)))

-- For a known register and with `deterministic` set, `mov_reg_imm64` appends exactly ten bytes, whatever
-- the value.
pub mov_reg_imm64_deterministic :
    (dst : String) (imm : ℤ) (s : Assembler) {d : ℕ}
    → reg_num dst ≡ ok d
    → s.deterministic ≡ true
    → (bytes : List ℕ) × (mov_reg_imm64 dst imm s ≡ ok (tt, emitted s bytes)) × (length bytes ≡ 10)
unfolding mov_reg_imm64
mov_reg_imm64_deterministic dst imm s {d} h e =
    let v : ℕ = wrap (2 ^ 64) imm in
    (
      u8 (rex 1 0 0 (shr d 3)) ++ (u8 (0xb8 + d % 8) ++ u64 (pos v)),
      (Emits-lift (λ d. mov_imm s d v) h (mov_imm-wide s d v e)).at s,
      unfold u8 u64 le_bytes in refl,
    )

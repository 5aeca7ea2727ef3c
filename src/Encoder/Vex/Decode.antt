-- ===== src/Encoder/Vex/Decode.antt =====
-- The BMI methods with three registers: the bytes that they emit, read back as a VEX instruction.
use aclmv.Prelude.{
  ℕ, ◌+◌, ◌-◌, ◌*◌, ◌/◌, ◌%◌, ◌<◌, ◌≡◌, ◌∙◌, refl, ap, bit_or, Bool, true, String, List, [], ◌∷◌,
  ◌++◌, arith, ◌==◌, ==_iff, ltb, if◌then◌else◌, some, All,
}
use aclmv.Prelude.Bits.{shl, passes_below, passes_below-at}
use aclmv.X86.{VexInstruction, register, decode_vex, finish_vex, read_rm}
use aclmv.Encoder.{ok, u8, reg_num, modrm, Asm, ◌>>=◌, ◌>>◌, lift, emit}
use aclmv.Encoder.Bytes.{u8_lem, reg_num-lt}
use aclmv.Encoder.Emits.{Emits, Emits-emit, Emits-seq, Emits-lift}
use aclmv.Encoder.ReadBack.{u8-modrm}
use aclmv.Encoder.Vex.{
  andn_reg_reg, bzhi_reg_reg, shlx_reg_reg, shrx_reg_reg, sarx_reg_reg, bextr_reg_reg, pext_reg_reg,
  pdep_reg_reg, mulx_reg_reg,
}

-- The method returns, only appends bytes, and the processor reads these as the VEX instruction.
abbrev pub EncodesVex : Asm (Unit {0}) → VexInstruction → Type 0
EncodesVex m i =
    (bytes : List ℕ) × Emits m bytes
    × ((rest : List ℕ) → decode_vex (bytes ++ rest) ≡ some (i, rest))

-- A 64-bit instruction of the map 0F 38 on three registers: ModRM.reg, VEX.vvvv and ModRM.rm.
abbrev pub among : ℕ → ℕ → ℕ → ℕ → ℕ → VexInstruction
among pp opcode r v m = record {
  pp = pp;
  w = 1;
  opmap = 2;
  vvvv = v;
  l = 0;
  opcode = opcode;
  reg = r;
  rm = register m;
}

abbrev not_extended : ℕ → ℕ
not_extended n = if ltb n 8 then 1 else 0

abbrev second : ℕ → ℕ → ℕ
second r m = bit_or (bit_or (bit_or (shl (not_extended r) 7) (shl 1 6)) (shl (not_extended m) 5)) 2

abbrev third : ℕ → ℕ → ℕ
third v pp = bit_or (bit_or (shl 1 7) (shl (0xf - v % 0x10) 3)) pp

abbrev second_value : ℕ → ℕ → ℕ
second_value r m = 128 * (1 - r / 8) + 64 + 32 * (1 - m / 8) + 2

unfoldable second_ok : ℕ → Bool
second_ok n = second (n / 16) (n % 16) == second_value (n / 16) (n % 16)

second_ok-all : passes_below second_ok 256 ≡ true
unfolding passes_below second_ok
second_ok-all = refl

unfoldable third_ok : ℕ → Bool
third_ok n = third (n / 4) (n % 4) == 128 + (15 - n / 4) * 8 + n % 4

third_ok-all : passes_below third_ok 64 ≡ true
unfolding passes_below third_ok
third_ok-all = refl

second_lem : (r m : ℕ) → r < 16 → m < 16 → second r m ≡ second_value r m
unfolding second_ok
second_lem r m hr hm =
    let n = r * 16 + m in
    let e : n / 16 ≡ r = omega arith in
    let f : n % 16 ≡ m = omega arith in
    rw (e, f) at
      ((==_iff _ _).0 (passes_below-at second_ok {x = n} 256 (omega arith) second_ok-all))

third_lem : (v pp : ℕ) → v < 16 → pp < 4 → third v pp ≡ 128 + (15 - v) * 8 + pp
unfolding third_ok
third_lem v pp hv hp =
    let n = v * 4 + pp in
    let e : n / 4 ≡ v = omega arith in
    let f : n % 4 ≡ pp = omega arith in
    rw (e, f) at ((==_iff _ _).0 (passes_below-at third_ok {x = n} 64 (omega arith) third_ok-all))

-- The five bytes of such an instruction.
among-read :
    (pp opcode r v m : ℕ) (rest : List ℕ)
    → pp < 4
    → r < 16
    → v < 16
    → m < 16
    → decode_vex (
        0xc4
        ∷ second_value r m
        ∷ (128 + (15 - v) * 8 + pp)
        ∷ opcode
        ∷ (192 + r % 8 * 8 + m % 8)
        ∷ rest)
      ≡ some (among pp opcode r v m, rest)
unfolding decode_vex read_rm
among-read pp opcode r v m rest hp hr hv hm =
    let p : ℕ = second_value r m in
    let q : ℕ = 128 + (15 - v) * 8 + pp in
    let n : ℕ = 192 + r % 8 * 8 + m % 8 in
    let mod_is : n / 64 ≡ 3 = omega arith in
    let pp_is : q % 4 ≡ pp = omega arith in
    let w_is : q / 128 ≡ 1 = omega arith in
    let map_is : p % 32 ≡ 2 = omega arith in
    let v_is : 15 - q / 8 % 16 ≡ v = omega arith in
    let l_is : q / 4 % 2 ≡ 0 = omega arith in
    let r_is : n / 8 % 8 + 8 * (1 - p / 128) ≡ r = omega arith in
    let m_is : n % 8 + 8 * (1 - p / 32 % 2) ≡ m = omega arith in
    ap (λ k. finish_vex p q opcode (read_rm k (n % 8) (1 - p / 64 % 2) (1 - p / 32 % 2) rest) n)
      mod_is
    ∙ (λ i. some (
      record {
        pp = pp_is i;
        w = w_is i;
        opmap = map_is i;
        vvvv = v_is i;
        l = l_is i;
        opcode = opcode;
        reg = r_is i;
        rm = register (m_is i);
      },
      rest,
    ))

module _ (pp opcode r v m : ℕ) (hp : pp < 4) (ho : opcode < 256) (hr : r < 16) (hv : v < 16)
    (hm : m < 16) where
  u8-third : u8 (third v pp) ≡ (128 + (15 - v) * 8 + pp) ∷ []
  u8-third = rw (third_lem v pp hv hp) (u8_lem _ (omega arith))

  u8-second : u8 (second r m) ≡ second_value r m ∷ []
  u8-second = rw (second_lem r m hr hm) (u8_lem _ (omega arith))

  -- The five bytes as the methods emit them.
  three_registers :
      EncodesVex
        (emit (u8 0xc4)
          >> (emit (u8 (second r m))
              >> (emit (u8 (third v pp))
                  >> (emit (u8 opcode) >> emit (u8 (modrm 3 (r % 8) (m % 8)))))))
        (among pp opcode r v m)
  three_registers = (
    u8 0xc4
        ++ (u8 (second r m) ++ (u8 (third v pp) ++ (u8 opcode ++ u8 (modrm 3 (r % 8) (m % 8))))),
    Emits-seq (Emits-emit _) (
        Emits-seq (Emits-emit _)
          (Emits-seq (Emits-emit _) (Emits-seq (Emits-emit _) (Emits-emit _)))),
    λ rest.
        rw
          (
            u8_lem 0xc4 (omega arith),
            u8-second,
            u8-third,
            u8_lem opcode ho,
            u8-modrm 3 (r % 8) (m % 8) (omega arith) (omega arith) (omega arith),
          )
          (among-read pp opcode r v m rest hp hr hv hm),
  )

-- A method with its mandatory prefix in VEX form (0 none, 1 66, 2 F3, 3 F2) and opcode.
pub record VexRow : Type 0 where
  pub method : String → String → String → Asm (Unit {0})
  pub pp : ℕ
  pub opcode : ℕ

abbrev vex_row : (String → String → String → Asm (Unit {0})) → ℕ → ℕ → VexRow
vex_row method pp opcode = record { method = method; pp = pp; opcode = opcode }

-- The second argument is ModRM.rm, the third VEX.vvvv.
abbrev pub count_rows : List VexRow
count_rows =
    vex_row bzhi_reg_reg 0 0xf5
    ∷ vex_row shlx_reg_reg 1 0xf7
    ∷ vex_row shrx_reg_reg 3 0xf7
    ∷ vex_row sarx_reg_reg 2 0xf7
    ∷ vex_row bextr_reg_reg 0 0xf7
    ∷ []

-- The second argument is VEX.vvvv, the third ModRM.rm.
abbrev pub source_rows : List VexRow
source_rows = vex_row andn_reg_reg 0 0xf2 ∷ vex_row mulx_reg_reg 3 0xf6 ∷ []

module _ (x y z : String) {a b c : ℕ} (x_is : reg_num x ≡ ok a) (y_is : reg_num y ≡ ok b)
    (z_is : reg_num z ≡ ok c) where
  named :
      (f : ℕ → ℕ → ℕ → Asm (Unit {0})) {i : VexInstruction}
      → EncodesVex (f a b c) i
      → EncodesVex (do a ← lift (reg_num x); b ← lift (reg_num y); c ← lift (reg_num z); f a b c) i
  named f (bytes, emits, back) =
      (bytes, Emits-lift _ x_is (Emits-lift _ y_is (Emits-lift (f a b) z_is emits)), back)

  -- For known registers each method of `count_rows` returns and only appends bytes; the processor reads
  -- these as the 64-bit VEX instruction of the row, with the first register in ModRM.reg, the second in
  -- ModRM.rm and the third in VEX.vvvv.
  pub count_rows-EncodesVex :
      All (λ t. EncodesVex (t.method x y z) (among t.pp t.opcode a c b)) count_rows
  unfolding bzhi_reg_reg shlx_reg_reg shrx_reg_reg sarx_reg_reg bextr_reg_reg
  count_rows-EncodesVex =
      let ha = reg_num-lt x x_is in
      let hb = reg_num-lt y y_is in
      let hc = reg_num-lt z z_is in
      (
        named _ (three_registers 0 0xf5 a c b (omega arith) (omega arith) ha hc hb),
        (
          named _ (three_registers 1 0xf7 a c b (omega arith) (omega arith) ha hc hb),
          (
            named _ (three_registers 3 0xf7 a c b (omega arith) (omega arith) ha hc hb),
            (
              named _ (three_registers 2 0xf7 a c b (omega arith) (omega arith) ha hc hb),
              (named _ (three_registers 0 0xf7 a c b (omega arith) (omega arith) ha hc hb), tt),
            ),
          ),
        ),
      )

  -- For known registers each method of `source_rows` returns and only appends bytes; the processor reads
  -- these as the 64-bit VEX instruction of the row, with the first register in ModRM.reg, the second in
  -- VEX.vvvv and the third in ModRM.rm.
  pub source_rows-EncodesVex :
      All (λ t. EncodesVex (t.method x y z) (among t.pp t.opcode a b c)) source_rows
  unfolding andn_reg_reg mulx_reg_reg
  source_rows-EncodesVex =
      let ha = reg_num-lt x x_is in
      let hb = reg_num-lt y y_is in
      let hc = reg_num-lt z z_is in
      (
        named _ (three_registers 0 0xf2 a b c (omega arith) (omega arith) ha hb hc),
        (named _ (three_registers 3 0xf6 a b c (omega arith) (omega arith) ha hb hc), tt),
      )

  -- PEXT has the prefix F3 (pp 2) and PDEP has F2 (pp 3), both with the opcode F5. For known registers
  -- `pext_reg_reg` appends the bytes of PDEP and `pdep_reg_reg` those of PEXT.
  pub pext-pdep :
      EncodesVex (pext_reg_reg x y z) (among 3 0xf5 a b c)
      × EncodesVex (pdep_reg_reg x y z) (among 2 0xf5 a b c)
  unfolding pext_reg_reg pdep_reg_reg
  pext-pdep =
      let ha = reg_num-lt x x_is in
      let hb = reg_num-lt y y_is in
      let hc = reg_num-lt z z_is in
      (
        named _ (three_registers 3 0xf5 a b c (omega arith) (omega arith) ha hb hc),
        named _ (three_registers 2 0xf5 a b c (omega arith) (omega arith) ha hb hc),
      )

-- ===== src/Encoder/Registers/Pairs.antt =====
-- The methods on two registers, each with the opcode that the architecture's manual gives it.
use aclmv.Prelude.{ℕ, ◌≡◌, refl, String, true, List, [], ◌∷◌, arith, All}
use aclmv.X86.{Instruction}
use aclmv.Encoder.{ok, reg_num, Asm, lift, ◌>>=◌}
use aclmv.Encoder.Bytes.{reg_num-lt}
use aclmv.Encoder.Arith.{
  add_reg_reg, or_reg_reg, adc_reg_reg, sbb_reg_reg, and_reg_reg, sub_reg_reg, xor_reg_reg,
  cmp_reg_reg, test_reg_reg, xadd_reg_reg, imul_reg_reg, binop_reg_reg,
}
use aclmv.Encoder.Shift.{shld_reg_reg, shrd_reg_reg}
use aclmv.Encoder.BitOps.{
  bt_reg_reg, bts_reg_reg, btr_reg_reg, btc_reg_reg, cmpxchg_reg_reg, bsf_reg_reg, bsr_reg_reg,
  movzx_r64_r8, movzx_r64_r16, movsx_r64_r8, movsx_r64_r16, popcnt_reg_reg, lzcnt_reg_reg,
  tzcnt_reg_reg, adcx_reg_reg, adox_reg_reg, crc32_reg_reg, movsxd_reg_reg,
}
use aclmv.Encoder.System.{lar_reg_reg, lsl_reg_reg}
use aclmv.Encoder.Prefixes.{Encodes}
use aclmv.Encoder.Registers.{between, Encodes-lift, one_byte, two_bytes, prefixed, prefixed_38}

-- A method on two register names, with its prefix, opcode map and opcode.
pub record Row : Type 0 where
  pub method : String → String → Asm (Unit {0})
  pub prefix : ℕ
  pub opmap : ℕ
  pub opcode : ℕ

-- `shld` takes a third argument that it does not read.
abbrev pub shld_cl : String → String → Asm (Unit {0})
shld_cl dst src = shld_reg_reg dst src true

abbrev row : (String → String → Asm (Unit {0})) → ℕ → ℕ → ℕ → Row
row method prefix opmap opcode = record {
  method = method;
  prefix = prefix;
  opmap = opmap;
  opcode = opcode;
}

-- The first register is ModRM.rm, the second ModRM.reg.
abbrev pub rm_reg_rows : List Row
rm_reg_rows =
    row add_reg_reg 0 0 0x1
    ∷ row or_reg_reg 0 0 0x9
    ∷ row adc_reg_reg 0 0 0x11
    ∷ row sbb_reg_reg 0 0 0x19
    ∷ row and_reg_reg 0 0 0x21
    ∷ row sub_reg_reg 0 0 0x29
    ∷ row xor_reg_reg 0 0 0x31
    ∷ row cmp_reg_reg 0 0 0x39
    ∷ row test_reg_reg 0 0 0x85
    ∷ row xadd_reg_reg 0 1 0xc1
    ∷ row shld_cl 0 1 0xa5
    ∷ row shrd_reg_reg 0 1 0xad
    ∷ row bt_reg_reg 0 1 0xa3
    ∷ row bts_reg_reg 0 1 0xab
    ∷ row btr_reg_reg 0 1 0xb3
    ∷ row btc_reg_reg 0 1 0xbb
    ∷ row cmpxchg_reg_reg 0 1 0xb1
    ∷ []

-- The first register is ModRM.reg, the second ModRM.rm.
abbrev pub reg_rm_rows : List Row
reg_rm_rows =
    row movsxd_reg_reg 0 0 0x63
    ∷ row imul_reg_reg 0 1 0xaf
    ∷ row bsf_reg_reg 0 1 0xbc
    ∷ row bsr_reg_reg 0 1 0xbd
    ∷ row movzx_r64_r8 0 1 0xb6
    ∷ row movzx_r64_r16 0 1 0xb7
    ∷ row movsx_r64_r8 0 1 0xbe
    ∷ row movsx_r64_r16 0 1 0xbf
    ∷ row lar_reg_reg 0 1 0x2
    ∷ row lsl_reg_reg 0 1 0x3
    ∷ row popcnt_reg_reg 0xf3 1 0xb8
    ∷ row lzcnt_reg_reg 0xf3 1 0xbd
    ∷ row tzcnt_reg_reg 0xf3 1 0xbc
    ∷ row adcx_reg_reg 0x66 2 0xf6
    ∷ row adox_reg_reg 0xf3 2 0xf6
    ∷ row crc32_reg_reg 0xf2 2 0xf1
    ∷ []

module _ (dst src : String) {d s : ℕ} (dst_is : reg_num dst ≡ ok d)
    (src_is : reg_num src ≡ ok s) where
  named :
      (f : ℕ → ℕ → Asm (Unit {0})) {i : Instruction}
      → Encodes (f d s) i
      → Encodes (do d ← lift (reg_num dst); s ← lift (reg_num src); f d s) i
  named f h = Encodes-lift _ dst_is (Encodes-lift (f d) src_is h)

  -- For known registers each method of `rm_reg_rows` returns and only appends bytes; the processor reads these
  -- as the 64-bit instruction of the row, with the first register in ModRM.rm and the second in ModRM.reg.
  pub rm_reg_rows-Encodes :
      All (λ x. Encodes (x.method dst src) (between x.prefix x.opmap x.opcode s d)) rm_reg_rows
  unfolding add_reg_reg or_reg_reg adc_reg_reg sbb_reg_reg and_reg_reg sub_reg_reg xor_reg_reg
      cmp_reg_reg test_reg_reg xadd_reg_reg shld_reg_reg shrd_reg_reg bt_reg_reg bts_reg_reg
      btr_reg_reg btc_reg_reg cmpxchg_reg_reg binop_reg_reg
  rm_reg_rows-Encodes =
      let hd = reg_num-lt dst dst_is in
      let hs = reg_num-lt src src_is in
      (
        named _ (one_byte s d hs hd 0x1 (omega arith) refl),
        (
          named _ (one_byte s d hs hd 0x9 (omega arith) refl),
          (
            named _ (one_byte s d hs hd 0x11 (omega arith) refl),
            (
              named _ (one_byte s d hs hd 0x19 (omega arith) refl),
              (
                named _ (one_byte s d hs hd 0x21 (omega arith) refl),
                (
                  named _ (one_byte s d hs hd 0x29 (omega arith) refl),
                  (
                    named _ (one_byte s d hs hd 0x31 (omega arith) refl),
                    (
                      named _ (one_byte s d hs hd 0x39 (omega arith) refl),
                      (
                        named _ (one_byte s d hs hd 0x85 (omega arith) refl),
                        (
                          named _ (two_bytes s d hs hd 0xc1 (omega arith) refl),
                          (
                            named _ (two_bytes s d hs hd 0xa5 (omega arith) refl),
                            (
                              named _ (two_bytes s d hs hd 0xad (omega arith) refl),
                              (
                                named _ (two_bytes s d hs hd 0xa3 (omega arith) refl),
                                (
                                  named _ (two_bytes s d hs hd 0xab (omega arith) refl),
                                  (
                                    named _ (two_bytes s d hs hd 0xb3 (omega arith) refl),
                                    (
                                      named _ (two_bytes s d hs hd 0xbb (omega arith) refl),
                                      (named _ (two_bytes s d hs hd 0xb1 (omega arith) refl), tt),
                                    ),
                                  ),
                                ),
                              ),
                            ),
                          ),
                        ),
                      ),
                    ),
                  ),
                ),
              ),
            ),
          ),
        ),
      )

  -- For known registers each method of `reg_rm_rows` returns and only appends bytes; the processor reads these
  -- as the 64-bit instruction of the row, with the first register in ModRM.reg and the second in ModRM.rm.
  pub reg_rm_rows-Encodes :
      All (λ x. Encodes (x.method dst src) (between x.prefix x.opmap x.opcode d s)) reg_rm_rows
  unfolding movsxd_reg_reg imul_reg_reg bsf_reg_reg bsr_reg_reg movzx_r64_r8 movzx_r64_r16
      movsx_r64_r8 movsx_r64_r16 lar_reg_reg lsl_reg_reg popcnt_reg_reg lzcnt_reg_reg tzcnt_reg_reg
      adcx_reg_reg adox_reg_reg crc32_reg_reg
  reg_rm_rows-Encodes =
      let hd = reg_num-lt dst dst_is in
      let hs = reg_num-lt src src_is in
      (
        named _ (one_byte d s hd hs 0x63 (omega arith) refl),
        (
          named _ (two_bytes d s hd hs 0xaf (omega arith) refl),
          (
            named _ (two_bytes d s hd hs 0xbc (omega arith) refl),
            (
              named _ (two_bytes d s hd hs 0xbd (omega arith) refl),
              (
                named _ (two_bytes d s hd hs 0xb6 (omega arith) refl),
                (
                  named _ (two_bytes d s hd hs 0xb7 (omega arith) refl),
                  (
                    named _ (two_bytes d s hd hs 0xbe (omega arith) refl),
                    (
                      named _ (two_bytes d s hd hs 0xbf (omega arith) refl),
                      (
                        named _ (two_bytes d s hd hs 0x2 (omega arith) refl),
                        (
                          named _ (two_bytes d s hd hs 0x3 (omega arith) refl),
                          (
                            named _ (
                                prefixed d s hd hs 0xf3 0xb8 (omega arith) refl (omega arith) refl),
                            (
                              named _ (
                                  prefixed d s hd hs 0xf3 0xbd (omega arith) refl (omega arith)
                                    refl),
                              (
                                named _ (
                                    prefixed d s hd hs 0xf3 0xbc (omega arith) refl (omega arith)
                                      refl),
                                (
                                  named _ (prefixed_38 d s hd hs 0x66 0xf6 (omega arith) refl),
                                  (
                                    named _ (prefixed_38 d s hd hs 0xf3 0xf6 (omega arith) refl),
                                    (
                                      named _ (prefixed_38 d s hd hs 0xf2 0xf1 (omega arith) refl),
                                      tt,
                                    ),
                                  ),
                                ),
                              ),
                            ),
                          ),
                        ),
                      ),
                    ),
                  ),
                ),
              ),
            ),
          ),
        ),
      )

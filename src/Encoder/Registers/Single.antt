-- ===== src/Encoder/Registers/Single.antt =====
-- The methods on one register, each with the opcode and the digit in ModRM.reg that the architecture's
-- manual gives it.
use aclmv.Prelude.{ℕ, ◌≡◌, refl, String, List, [], ◌∷◌, arith, All}
use aclmv.Encoder.{ok, reg_num, Asm}
use aclmv.Encoder.Bytes.{reg_num-lt}
use aclmv.Encoder.Arith.{not_reg, neg_reg, mul_reg, div_reg, idiv_reg, inc_reg, dec_reg}
use aclmv.Encoder.Shift.{
  rol_reg_cl, ror_reg_cl, rcl_reg_cl, rcr_reg_cl, shl_reg_cl, shr_reg_cl, sar_reg_cl,
}
use aclmv.Encoder.BitOps.{rdrand_reg, rdseed_reg}
use aclmv.Encoder.Flow.{call_reg}
use aclmv.Encoder.Prefixes.{Encodes}
use aclmv.Encoder.Registers.{between, Encodes-lift, one_byte, two_bytes}

-- A method on a register name, with its opcode map, opcode and digit.
pub record Row : Type 0 where
  pub method : String → Asm (Unit {0})
  pub opmap : ℕ
  pub opcode : ℕ
  pub digit : ℕ

abbrev row : (String → Asm (Unit {0})) → ℕ → ℕ → ℕ → Row
row method opmap opcode digit = record {
  method = method;
  opmap = opmap;
  opcode = opcode;
  digit = digit;
}

abbrev pub digit_rows : List Row
digit_rows =
    row not_reg 0 0xf7 2
    ∷ row neg_reg 0 0xf7 3
    ∷ row mul_reg 0 0xf7 4
    ∷ row div_reg 0 0xf7 6
    ∷ row idiv_reg 0 0xf7 7
    ∷ row inc_reg 0 0xff 0
    ∷ row dec_reg 0 0xff 1
    ∷ row call_reg 0 0xff 2
    ∷ row rol_reg_cl 0 0xd3 0
    ∷ row ror_reg_cl 0 0xd3 1
    ∷ row rcl_reg_cl 0 0xd3 2
    ∷ row rcr_reg_cl 0 0xd3 3
    ∷ row shl_reg_cl 0 0xd3 4
    ∷ row shr_reg_cl 0 0xd3 5
    ∷ row sar_reg_cl 0 0xd3 7
    ∷ row rdrand_reg 1 0xc7 6
    ∷ row rdseed_reg 1 0xc7 7
    ∷ []

module _ (dst : String) {d : ℕ} (dst_is : reg_num dst ≡ ok d) where
  -- For a known register each method of `digit_rows` returns and only appends bytes; the processor reads these
  -- as the 64-bit instruction of the row, with its digit in ModRM.reg and the register in ModRM.rm.
  pub digit_rows-Encodes :
      All (λ x. Encodes (x.method dst) (between 0 x.opmap x.opcode x.digit d)) digit_rows
  unfolding not_reg neg_reg mul_reg div_reg idiv_reg inc_reg dec_reg call_reg rol_reg_cl ror_reg_cl
      rcl_reg_cl rcr_reg_cl shl_reg_cl shr_reg_cl sar_reg_cl rdrand_reg rdseed_reg
  digit_rows-Encodes =
      let hd = reg_num-lt dst dst_is in
      (
        Encodes-lift _ dst_is (one_byte 2 d (omega arith) hd 0xf7 (omega arith) refl),
        (
          Encodes-lift _ dst_is (one_byte 3 d (omega arith) hd 0xf7 (omega arith) refl),
          (
            Encodes-lift _ dst_is (one_byte 4 d (omega arith) hd 0xf7 (omega arith) refl),
            (
              Encodes-lift _ dst_is (one_byte 6 d (omega arith) hd 0xf7 (omega arith) refl),
              (
                Encodes-lift _ dst_is (one_byte 7 d (omega arith) hd 0xf7 (omega arith) refl),
                (
                  Encodes-lift _ dst_is (one_byte 0 d (omega arith) hd 0xff (omega arith) refl),
                  (
                    Encodes-lift _ dst_is (one_byte 1 d (omega arith) hd 0xff (omega arith) refl),
                    (
                      Encodes-lift _ dst_is (one_byte 2 d (omega arith) hd 0xff (omega arith) refl),
                      (
                        Encodes-lift _ dst_is
                            (one_byte 0 d (omega arith) hd 0xd3 (omega arith) refl),
                        (
                          Encodes-lift _ dst_is
                              (one_byte 1 d (omega arith) hd 0xd3 (omega arith) refl),
                          (
                            Encodes-lift _ dst_is
                                (one_byte 2 d (omega arith) hd 0xd3 (omega arith) refl),
                            (
                              Encodes-lift _ dst_is
                                  (one_byte 3 d (omega arith) hd 0xd3 (omega arith) refl),
                              (
                                Encodes-lift _ dst_is
                                    (one_byte 4 d (omega arith) hd 0xd3 (omega arith) refl),
                                (
                                  Encodes-lift _ dst_is
                                      (one_byte 5 d (omega arith) hd 0xd3 (omega arith) refl),
                                  (
                                    Encodes-lift _ dst_is
                                        (one_byte 7 d (omega arith) hd 0xd3 (omega arith) refl),
                                    (
                                      Encodes-lift _ dst_is
                                          (two_bytes 6 d (omega arith) hd 0xc7 (omega arith) refl),
                                      (
                                        Encodes-lift _ dst_is (
                                            two_bytes 7 d (omega arith) hd 0xc7 (omega arith) refl),
                                        tt,
                                      ),
                                    ),
                                  ),
                                ),
                              ),
                            ),
                          ),
                        ),
                      ),
                    ),
                  ),
                ),
              ),
            ),
          ),
        ),
      )

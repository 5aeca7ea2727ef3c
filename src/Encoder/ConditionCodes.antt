-- ===== src/Encoder/ConditionCodes.antt =====
-- What the condition names of Jcc, SETcc and CMOVcc mean for two words that were compared.
use aclmv.Prelude.{
  Assoc, ℕ, ◌+◌, ◌%◌, ◌^◌, ◌<◌, ◌≡◌, ◌≢◌, refl, Bool, not, arith, ltb, leb, ◌==◌, Option, some,
  String, List, [], ◌∷◌, All, lookup,
}
use aclmv.X86.Flags.{compare_flags, condition}
use aclmv.Encoder.Conditions.{setcc_opcode, jcc_opcode, cmov_opcode}

-- a < b for 64-bit words in two's complement.
abbrev pub signed_lt : ℕ → ℕ → Bool
signed_lt a b = ltb ((a + 2 ^ 63) % 2 ^ 64) ((b + 2 ^ 63) % 2 ^ 64)

-- A condition name with the relation of the two words that it tests.
pub record Comparison : Type 0 where
  pub name : String
  pub holds : ℕ → ℕ → Bool

abbrev comparison : String → (ℕ → ℕ → Bool) → Comparison
comparison name holds = record { name = name; holds = holds }

abbrev pub comparisons : List Comparison
comparisons =
    comparison "eq" (λ a b. a == b)
    ∷ comparison "neq" (λ a b. not (a == b))
    ∷ comparison "lt" (λ a b. signed_lt a b)
    ∷ comparison "gt" (λ a b. signed_lt b a)
    ∷ comparison "lte" (λ a b. not (signed_lt b a))
    ∷ comparison "gte" (λ a b. not (signed_lt a b))
    ∷ comparison "below" (λ a b. ltb a b)
    ∷ comparison "above" (λ a b. ltb b a)
    ∷ comparison "be" (λ a b. leb a b)
    ∷ comparison "ble" (λ a b. leb a b)
    ∷ comparison "ae" (λ a b. leb b a)
    ∷ []

-- The opcode byte that the table gives to `name`, over the base of its group, is a condition code that
-- holds after `cmp a, b` exactly when `holds a b`.
abbrev pub Tests : (String → Option ℕ) → ℕ → ℕ → ℕ → Bool → Comparison → Type 0
Tests table base a b parity c =
    (k : ℕ) × (table c.name ≡ some (base + k))
    × (condition k (compare_flags parity a b) ≡ c.holds a b)

-- The condition codes of the eleven names.
abbrev comparison_codes : Assoc ℕ
comparison_codes =
    ("eq", 4)
    ∷ ("neq", 5)
    ∷ ("lt", 12)
    ∷ ("gt", 15)
    ∷ ("lte", 14)
    ∷ ("gte", 13)
    ∷ ("below", 2)
    ∷ ("above", 7)
    ∷ ("be", 6)
    ∷ ("ble", 6)
    ∷ ("ae", 3)
    ∷ []

module _ (a b : ℕ) (parity : Bool) (ha : a < 2 ^ 64) (hb : b < 2 ^ 64) where
  abbrev after_cmp : ℕ → Bool
  after_cmp k = condition k (compare_flags parity a b)

  test_eq : after_cmp 4 ≡ (a == b)
  unfolding condition compare_flags
  test_eq = ground arith

  test_neq : after_cmp 5 ≡ not (a == b)
  unfolding condition compare_flags
  test_neq = ground arith

  test_lt : after_cmp 12 ≡ signed_lt a b
  unfolding condition compare_flags
  test_lt = ground arith

  test_gt : after_cmp 15 ≡ signed_lt b a
  unfolding condition compare_flags
  test_gt = ground arith

  test_lte : after_cmp 14 ≡ not (signed_lt b a)
  unfolding condition compare_flags
  test_lte = ground arith

  test_gte : after_cmp 13 ≡ not (signed_lt a b)
  unfolding condition compare_flags
  test_gte = ground arith

  test_below : after_cmp 2 ≡ ltb a b
  unfolding condition compare_flags
  test_below = ground arith

  test_above : after_cmp 7 ≡ ltb b a
  unfolding condition compare_flags
  test_above = ground arith

  test_be : after_cmp 6 ≡ leb a b
  unfolding condition compare_flags
  test_be = ground arith

  test_ae : after_cmp 3 ≡ leb b a
  unfolding condition compare_flags
  test_ae = ground arith

  -- A table with these codes tests the eleven comparisons.
  codes-Tests :
      (table : String → Option ℕ) (base : ℕ)
      → All (λ p. table p.0 ≡ some (base + p.1)) comparison_codes
      → All (Tests table base a b parity) comparisons
  codes-Tests table base (h0, (h1, (h2, (h3, (h4, (h5, (h6, (h7, (h8, (h9, (h10, _))))))))))) = (
    (4, h0, test_eq),
    (
      (5, h1, test_neq),
      (
        (12, h2, test_lt),
        (
          (15, h3, test_gt),
          (
            (14, h4, test_lte),
            (
              (13, h5, test_gte),
              (
                (2, h6, test_below),
                (
                  (7, h7, test_above),
                  ((6, h8, test_be), ((6, h9, test_be), ((3, h10, test_ae), tt))),
                ),
              ),
            ),
          ),
        ),
      ),
    ),
  )

  -- For each of the eleven names of `comparisons` the Jcc table holds an opcode, and after `cmp a, b` of two
  -- 64-bit words its condition is true exactly when the name's relation of a and b is.
  pub jcc_opcode-Tests : All (Tests (λ name. lookup name jcc_opcode) 0x80 a b parity) comparisons
  unfolding lookup
  jcc_opcode-Tests =
      codes-Tests (λ name. lookup name jcc_opcode) 0x80
        (refl, (refl, (refl, (refl, (refl, (refl, (refl, (refl, (refl, (refl, (refl, tt)))))))))))

  -- For each of the eleven names of `comparisons` the SETcc table holds an opcode, and after `cmp a, b` of two
  -- 64-bit words its condition is true exactly when the name's relation of a and b is.
  pub setcc_opcode-Tests :
      All (Tests (λ name. lookup name setcc_opcode) 0x90 a b parity) comparisons
  unfolding lookup
  setcc_opcode-Tests =
      codes-Tests (λ name. lookup name setcc_opcode) 0x90
        (refl, (refl, (refl, (refl, (refl, (refl, (refl, (refl, (refl, (refl, (refl, tt)))))))))))

  -- For each of the eleven names of `comparisons` the CMOVcc table holds an opcode, and after `cmp a, b` of two
  -- 64-bit words its condition is true exactly when the name's relation of a and b is.
  pub cmov_opcode-Tests : All (Tests (λ name. lookup name cmov_opcode) 0x40 a b parity) comparisons
  unfolding lookup
  cmov_opcode-Tests =
      codes-Tests (λ name. lookup name cmov_opcode) 0x40
        (refl, (refl, (refl, (refl, (refl, (refl, (refl, (refl, (refl, (refl, (refl, tt)))))))))))

-- `abe` is above-or-equal in the Jcc table and below-or-equal in the SETcc table: after `cmp a, b` of two
-- different 64-bit words the two conditions disagree.
pub abe_disagree :
    (a b : ℕ) (parity : Bool)
    → a < 2 ^ 64
    → b < 2 ^ 64
    → a ≢ b
    → (j : ℕ) × (k : ℕ) × (lookup "abe" jcc_opcode ≡ some (0x80 + j))
      × (lookup "abe" setcc_opcode ≡ some (0x90 + k))
      × (condition j (compare_flags parity a b) ≢ condition k (compare_flags parity a b))
unfolding lookup
abe_disagree a b parity ha hb ne =
    (3, 6, refl, refl, rw (test_ae a b parity ha hb, test_be a b parity ha hb) (ground arith))

-- ===== src/Encoder/Bytes.antt =====
-- The bytes that the integer encodings and the REX, ModRM and SIB bytes come to, in plain arithmetic.
use aclmv.Prelude.{
  ℕ, ◌+◌, ◌*◌, ◌/◌, ◌%◌, ◌<◌, ◌≡◌, ◌∙◌, refl, ap, true, [], ◌∷◌, arith, ◌==◌, ==_iff, Option, none,
  some, String, lookup, Assoc, All,
}
use aclmv.Prelude.Bits.{passes_below, passes_below-at, fields_sum}
use aclmv.Encoder.{ok, u8, rex, modrm, reg_num, registers, found}

pub u8_lem : (v : ℕ) → v < 256 → u8 v ≡ v ∷ []
unfolding u8
u8_lem v h = ap (λ t. t ∷ []) (omega arith)

pub modrm_lem : (m r c : ℕ) → m < 4 → r < 8 → c < 8 → modrm m r c ≡ m * 64 + r * 8 + c
unfolding modrm
modrm_lem m r c hm hr hc =
    let e : m % 4 ≡ m = omega arith in
    let f : r % 8 ≡ r = omega arith in
    let g : c % 8 ≡ c = omega arith in rw (e, f, g) (fields_sum m r c hm hr hc)

pub modrm-lt : (m r c : ℕ) → m < 4 → r < 8 → c < 8 → modrm m r c < 256
modrm-lt m r c hm hr hc = omega (arith, modrm_lem m r c hm hr hc)

rex_table : passes_below (λ n. rex (n / 8) (n / 4 % 2) (n / 2 % 2) (n % 2) == 64 + n) 16 ≡ true
unfolding passes_below rex
rex_table = refl

pub rex_lem :
    (w r x b : ℕ) → w < 2 → r < 2 → x < 2 → b < 2 → rex w r x b ≡ 64 + 8 * w + 4 * r + 2 * x + b
rex_lem w r x b hw hr hx hb =
    let n = 8 * w + 4 * r + 2 * x + b in
    let e : n / 8 ≡ w = omega arith in
    let f : n / 4 % 2 ≡ r = omega arith in
    let g : n / 2 % 2 ≡ x = omega arith in
    let k : n % 2 ≡ b = omega arith in
    rw (e, f, g, k) at
      ((==_iff _ (64 + n)).0 (
        passes_below-at (λ n. rex (n / 8) (n / 4 % 2) (n / 2 % 2) (n % 2) == 64 + n) 16
          (omega arith) rex_table))
    ∙ omega arith

pub lookup-lt :
    (n : ℕ) (name : String) (t : Assoc ℕ) (r : ℕ)
    → All (λ p. p.1 < n) t
    → lookup name t ≡ some r
    → r < n
unfolding lookup
lookup-lt n name [] r h e = cc
lookup-lt n name ((j, v) ∷ t) r h e = ground (arith, lookup-lt n name t r h.1)

reg_num-lookup : (name : String) {r : ℕ} → reg_num name ≡ ok r → lookup name registers ≡ some r
unfolding reg_num
reg_num-lookup name h = go (lookup name registers) refl h
  where
    go :
        {r : ℕ} (o : Option ℕ)
        → lookup name registers ≡ o
        → found name o ≡ ok r
        → lookup name registers ≡ some r
    go none e f = cc
    go (some v) e f = cc

-- Every register number is below 16.
pub reg_num-lt : (name : String) {r : ℕ} → reg_num name ≡ ok r → r < 16
reg_num-lt name {r} h = lookup-lt 16 name registers r (omega arith) (reg_num-lookup name h)

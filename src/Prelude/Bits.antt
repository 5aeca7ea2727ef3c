-- ===== src/Prelude/Bits.antt =====
-- Disjoint bit fields joined by `|`, and shifts, in arithmetic.
use Prim.Native.Nat.{ℕ, zero, suc, ◌+◌, ◌*◌, ◌/◌, ◌%◌, ◌^◌, ◌<◌, bit_or}
use mathlib.Core.Path.{◌≡◌, refl}
use mathlib.Core.Bool.{Bool, true, false}
use native.Mathlib.Omega.{arith}
use aclmv.Prelude.Tests.{◌==◌, ==_iff, if◌then◌else◌}

-- x >> k, x << k
abbrev pub shr : ℕ → ℕ → ℕ
shr x k = x / 2 ^ k

abbrev pub shl : ℕ → ℕ → ℕ
shl x k = x * 2 ^ k

-- Whether a test passes at every number below the bound.
unfoldable pub passes_below : (ℕ → Bool) → ℕ → Bool
passes_below test zero = true
passes_below test (suc bound) = if test bound then passes_below test bound else false

pub passes_below-at :
    (test : ℕ → Bool) {x : ℕ} (bound : ℕ)
    → x < bound
    → passes_below test bound ≡ true
    → test x ≡ true
unfolding passes_below
passes_below-at test {x} (suc bound) below h = ground (arith, passes_below-at test {x = x} bound)
passes_below-at test {x} zero below h = absurd (omega arith)

unfoldable join_fields : ℕ → ℕ
join_fields n = bit_or (bit_or (n / 64 * 64) (n / 8 % 8 * 8)) (n % 8)

join_fields-all : passes_below (λ n. join_fields n == n) 256 ≡ true
unfolding passes_below join_fields
join_fields-all = refl

-- The fields of a ModRM or SIB byte.
pub fields_join : (n : ℕ) → n < 256 → bit_or (bit_or (n / 64 * 64) (n / 8 % 8 * 8)) (n % 8) ≡ n
unfolding join_fields
fields_join n h = (==_iff _ n).0 (passes_below-at (λ n. join_fields n == n) 256 h join_fields-all)

pub fields_sum :
    (a b c : ℕ) → a < 4 → b < 8 → c < 8 → bit_or (bit_or (a * 64) (b * 8)) c ≡ a * 64 + b * 8 + c
fields_sum a b c ha hb hc =
    let n = a * 64 + b * 8 + c in
    let e : n / 64 ≡ a = omega arith in
    let f : n / 8 % 8 ≡ b = omega arith in
    let g : n % 8 ≡ c = omega arith in rw (e, f, g) at (fields_join n (omega arith))

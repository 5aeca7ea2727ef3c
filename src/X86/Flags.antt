-- ===== src/X86/Flags.antt =====
-- The arithmetic flags after `cmp a, b` on 64-bit words, and the sixteen conditions of Jcc, SETcc and
-- CMOVcc, from the architecture's manual.
use aclmv.Prelude.{
  ℕ, ◌+◌, ◌-◌, ◌/◌, ◌%◌, ◌^◌, Bool, true, false, not, ◌&&◌, ◌||◌, ltb, leb, ◌==◌, if◌then◌else◌,
}

pub record Flags : Type 0 where
  pub cf : Bool
  pub pf : Bool
  pub zf : Bool
  pub sf : Bool
  pub of : Bool

abbrev pub negative : ℕ → Bool
negative a = leb (2 ^ 63) a

abbrev differ : Bool → Bool → Bool
differ true b = not b
differ false b = b

-- The difference as a word.
abbrev difference : ℕ → ℕ → ℕ
difference a b = (a + 2 ^ 64 - b) % 2 ^ 64

-- PF, the parity of the low byte, is a parameter: no condition on numbers reads it.
unfoldable pub compare_flags : Bool → ℕ → ℕ → Flags
compare_flags parity a b = record {
  cf = ltb a b;
  pf = parity;
  zf = a == b;
  sf = negative (difference a b);
  of = differ (negative a) (negative b) && differ (negative a) (negative (difference a b));
}

-- The condition with the code `c`; an odd code is the negation of the even one before it.
abbrev even_condition : ℕ → Flags → Bool
even_condition k f =
    if k == 0
    then f.of
    else if k == 1
    then f.cf
    else if k == 2
    then f.zf
    else if k == 3
    then f.cf || f.zf
    else if k == 4
    then f.sf
    else if k == 5
    then f.pf
    else if k == 6
    then differ f.sf f.of
    else f.zf || differ f.sf f.of

unfoldable pub condition : ℕ → Flags → Bool
condition c f = if c % 2 == 1 then not (even_condition (c / 2) f) else even_condition (c / 2) f

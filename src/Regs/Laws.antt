-- ===== src/Regs/Laws.antt =====
-- What `resolve` and `is_reg_name` promise to the code generator.
use aclmv.Prelude.{
  ℕ, ◌≡◌, ◌≢◌, [], ◌∷◌, ◌∙◌, refl, ap, Bool, true, false, not, ◌||◌, ◌&&◌, ◌==◌, Option, none, some,
  String, List, if◌then◌else◌, arith, Bool-cases, Option-cases, ◌⊎◌, inl, inr, ◌↔◌, lookup, str_eq,
  eq_iff,
}
use aclmv.Prelude.Text.{
  codes, same_text, strip, lower, lower_char, is_in, find, every, each, find-every, is_in-each,
}
use aclmv.Encoder.{ok, reg_num, registers}
use aclmv.Regs.{
  Resolution, register, reserved_register, unknown_register, virtual_regs, virtual_compat,
  partial32, physical, reserved, identity_table, or_else, resolve_key, resolve, found, is_reg_key,
  is_reg_name,
}

-- The name of a general register other than rsp, rbp, r11 and r15.
abbrev safe_number : Option ℕ → Bool
safe_number none = false
safe_number (some n) = not (n == 4 || n == 5 || n == 11 || n == 15)

abbrev resolves_to : String → Resolution → Bool
resolves_to p (register q) = str_eq q p
resolves_to p reserved_register = false
resolves_to p unknown_register = false

-- What is checked of every entry: its register is safe, resolves to itself, and its key is not reserved.
abbrev entry_ok : List ℕ → String → Bool
entry_ok k p =
    safe_number (lookup p registers)
    && (resolves_to p (resolve (codes p)) && not (is_in k reserved))

virtual_ok : every entry_ok virtual_regs ≡ true
unfolding every resolve strip lower_char lookup is_in find
virtual_ok = refl

compat_ok : every entry_ok virtual_compat ≡ true
unfolding every resolve strip lower_char lookup is_in find
compat_ok = refl

partial32_ok : every entry_ok partial32 ≡ true
unfolding every resolve strip lower_char lookup is_in find
partial32_ok = refl

physical_ok : every entry_ok (identity_table physical) ≡ true
unfolding every resolve strip lower_char lookup is_in find
physical_ok = refl

ladder :
    (r : Bool) (a b c d : Option String) (p : String)
    → (if r
        then reserved_register
        else or_else a (or_else b (or_else c (or_else d unknown_register))))
      ≡ register p
    → (r ≡ false) × ((a ≡ some p) ⊎ (b ≡ some p) ⊎ (c ≡ some p) ⊎ (d ≡ some p))
ladder r a b c d p h = ground arith

-- The table in which a resolved name stands.
resolve_key-found :
    (n : List ℕ) (p : String)
    → resolve_key n ≡ register p
    → (is_in n reserved ≡ false)
      × ((find n virtual_regs ≡ some p)
          ⊎ (find n virtual_compat ≡ some p)
          ⊎ (find n partial32 ≡ some p)
          ⊎ (find n (identity_table physical) ≡ some p))
unfolding resolve_key
resolve_key-found n p h =
    ladder (is_in n reserved) (find n virtual_regs) (find n virtual_compat) (find n partial32)
      (find n (identity_table physical)) p h

resolve_key-entry_ok : (n : List ℕ) (p : String) → resolve_key n ≡ register p → entry_ok n p ≡ true
resolve_key-entry_ok n p h = elim (resolve_key-found n p h).1 [
  | inl e ↦ find-every entry_ok n virtual_regs virtual_ok e
  | inr (inl e) ↦ find-every entry_ok n virtual_compat compat_ok e
  | inr (inr (inl e)) ↦ find-every entry_ok n partial32 partial32_ok e
  | inr (inr (inr e)) ↦ find-every entry_ok n (identity_table physical) physical_ok e
]

entry_facts :
    (k : List ℕ) (p : String)
    → entry_ok k p ≡ true
    → (safe_number (lookup p registers) ≡ true) × (resolves_to p (resolve (codes p)) ≡ true)
entry_facts k p h = ground arith

safe_register :
    (p : String)
    → safe_number (lookup p registers) ≡ true
    → (n : ℕ) × (reg_num p ≡ ok n) × (n ≢ 4) × (n ≢ 5) × (n ≢ 11) × (n ≢ 15)
unfolding reg_num
safe_register p h = elim (Option-cases (lookup p registers)) [
  | inl e ↦ absurd (cc (rw e at h))
  | inr (n, e) ↦
      let t : not (n == 4 || n == 5 || n == 11 || n == 15) ≡ true = rw e at h in
      (n, rw e, ground arith, ground arith, ground arith, ground arith)
]

-- A name that resolves stands for a register that the encoder knows, and never for rsp (4), rbp (5) or the
-- scratch registers r11 and r15 of the code generator.
pub resolve-safe :
    (name : List ℕ) (p : String)
    → resolve name ≡ register p
    → (n : ℕ) × (reg_num p ≡ ok n) × (n ≢ 4) × (n ≢ 5) × (n ≢ 11) × (n ≢ 15)
unfolding resolve
resolve-safe name p h =
    safe_register p (entry_facts _ p (resolve_key-entry_ok (lower (strip name)) p h)).0

resolves_to-eq : (p : String) (r : Resolution) → resolves_to p r ≡ true → r ≡ register p
resolves_to-eq p (register q) h = ap register ((eq_iff q p).0 h)
resolves_to-eq p reserved_register h = cc
resolves_to-eq p unknown_register h = cc

-- Resolving the name of the resolved register gives that register again.
pub resolve-resolve :
    (name : List ℕ) (p : String) → resolve name ≡ register p → resolve (codes p) ≡ register p
resolve-resolve name p h =
    resolves_to-eq p _
      (entry_facts _ p (resolve_key-entry_ok (lower (strip name)) p (unfold resolve in h))).1

find-identity : (n : List ℕ) (ks : List String) → is_in n ks ≡ found (find n (identity_table ks))
unfolding is_in find
find-identity n [] = refl
find-identity n (k ∷ ks) = ground (arith, find-identity n ks)

not_reserved : (n : List ℕ) → is_reg_key n ≡ true → is_in n reserved ≡ false
not_reserved n h = elim (Bool-cases (is_in n reserved)) [
  | inl e ↦
      let no : not (is_reg_key n) ≡ true =
        is_in-each (λ k. not (is_reg_key k)) n reserved
          (unfold each is_reg_key find is_in same_text in refl) e in
      absurd (cc (rw h at no))
  | inr e ↦ e
]

iff_ladder :
    (a b c d : Option String)
    → (found a || found b || found d || found c) ≡ true
    → (p : String) × (or_else a (or_else b (or_else c (or_else d unknown_register))) ≡ register p)
iff_ladder (some p) b c d h = (p, refl)
iff_ladder none (some p) c d h = (p, refl)
iff_ladder none none (some p) d h = (p, refl)
iff_ladder none none none (some p) h = (p, refl)
iff_ladder none none none none h = absurd (cc)

ladder_found :
    (a b c d : Option String) (p : String)
    → (a ≡ some p) ⊎ (b ≡ some p) ⊎ (c ≡ some p) ⊎ (d ≡ some p)
    → (found a || found b || found d || found c) ≡ true
ladder_found a b c d p h = ground arith

is_reg_key_lem :
    (n : List ℕ)
    → is_reg_key n ≡ (
        found (find n virtual_regs)
        || found (find n virtual_compat)
        || found (find n (identity_table physical))
        || found (find n partial32))
unfolding is_reg_key
is_reg_key_lem n =
    ap
      (λ t.
        found (find n virtual_regs)
        || found (find n virtual_compat)
        || t
        || found (find n partial32))
      (find-identity n physical)

is_reg_key-resolves :
    (n : List ℕ) → is_reg_key n ≡ true → (p : String) × (resolve_key n ≡ register p)
is_reg_key-resolves n h =
    let (p, e) =
      iff_ladder (find n virtual_regs) (find n virtual_compat) (find n partial32)
        (find n (identity_table physical)) (rw (is_reg_key_lem n) at h) in
    (p, unfold resolve_key in rw (not_reserved n h) e)

resolves-is_reg_key : (n : List ℕ) (p : String) → resolve_key n ≡ register p → is_reg_key n ≡ true
resolves-is_reg_key n p h =
    is_reg_key_lem n
    ∙ ladder_found (find n virtual_regs) (find n virtual_compat) (find n partial32)
        (find n (identity_table physical)) p (resolve_key-found n p h).1

-- `is_reg_name` holds of exactly the names that `resolve` accepts.
pub is_reg_name_iff :
    (name : List ℕ) → (is_reg_name name ≡ true) ↔ ((p : String) × (resolve name ≡ register p))
unfolding resolve is_reg_name
is_reg_name_iff name = (
  is_reg_key-resolves (lower (strip name)),
  λ (p, e). resolves-is_reg_key (lower (strip name)) p e,
)

-- ===== src/Regs.antt =====
-- ACLM/regs.py: the register names of the language and the physical registers that they stand for.
pub mod Laws
use aclmv.Prelude.{
  ℕ, Bool, true, false, ◌||◌, Option, none, some, String, List, [], ◌∷◌, Assoc, if◌then◌else◌,
}
use aclmv.Prelude.Text.{strip, lower, is_in, find}

-- VIRTUAL
abbrev pub virtual_regs : Assoc String
virtual_regs =
    ("reg1", "rax")
    ∷ ("reg2", "rbx")
    ∷ ("reg3", "rcx")
    ∷ ("reg4", "rdx")
    ∷ ("reg5", "rsi")
    ∷ ("reg6", "rdi")
    ∷ ("reg7", "r8")
    ∷ ("reg8", "r9")
    ∷ ("reg9", "r10")
    ∷ ("reg10", "r12")
    ∷ ("reg11", "r13")
    ∷ ("reg12", "r14")
    ∷ []

-- VIRTUAL_COMPAT
abbrev pub virtual_compat : Assoc String
virtual_compat = ("reg13", "r14") ∷ []

-- PARTIAL32
abbrev pub partial32 : Assoc String
partial32 =
    ("eax", "rax")
    ∷ ("ebx", "rbx")
    ∷ ("ecx", "rcx")
    ∷ ("edx", "rdx")
    ∷ ("esi", "rsi")
    ∷ ("edi", "rdi")
    ∷ ("r8d", "r8")
    ∷ ("r9d", "r9")
    ∷ ("r10d", "r10")
    ∷ ("r12d", "r12")
    ∷ ("r13d", "r13")
    ∷ ("r14d", "r14")
    ∷ []

-- PHYSICAL. A set; the lookup below finds the name itself.
abbrev pub physical : List String
physical =
    "rax" ∷ "rbx" ∷ "rcx" ∷ "rdx" ∷ "rsi" ∷ "rdi" ∷ "r8" ∷ "r9" ∷ "r10" ∷ "r12" ∷ "r13" ∷ "r14" ∷ []

-- RESERVED
abbrev pub reserved : List String
reserved = "rbp" ∷ "rsp" ∷ "rip" ∷ "r15" ∷ "r11" ∷ "esp" ∷ "ebp" ∷ []

-- What `resolve` returns, or the kind of the ValueError that it raises.
pub data Resolution : Type 0 where
  register : String → Resolution
  reserved_register : Resolution
  unknown_register : Resolution

-- `if n in PHYSICAL: return n`: the physical names as a table, since a result is a `String`.
abbrev pub identity_table : List String → Assoc String
identity_table [] = []
identity_table (k ∷ ks) = (k, k) ∷ identity_table ks

-- The next table is asked when the name is not in this one.
abbrev pub or_else : Option String → Resolution → Resolution
or_else (some p) r = register p
or_else none r = r

-- From `n = name.strip().lower()` on.
unfoldable pub resolve_key : List ℕ → Resolution
resolve_key n =
    if is_in n reserved
    then reserved_register
    else or_else (find n virtual_regs) (
        or_else (find n virtual_compat) (
          or_else (find n partial32) (or_else (find n (identity_table physical)) unknown_register)))

unfoldable pub resolve : List ℕ → Resolution
unfolding resolve_key
resolve name = resolve_key (lower (strip name))

-- `n in table`
abbrev pub found : Option String → Bool
found none = false
found (some _) = true

unfoldable pub is_reg_key : List ℕ → Bool
is_reg_key n =
    found (find n virtual_regs)
    || found (find n virtual_compat)
    || is_in n physical
    || found (find n partial32)

unfoldable pub is_reg_name : List ℕ → Bool
unfolding is_reg_key
is_reg_name name = is_reg_key (lower (strip name))

unfoldable pub is_partial32 : List ℕ → Bool
is_partial32 name = found (find (lower (strip name)) partial32)

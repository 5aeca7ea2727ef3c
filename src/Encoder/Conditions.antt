-- ===== src/Encoder/Conditions.antt =====
-- ACLM/x64enc.py: the opcode tables of SETcc, Jcc and CMOVcc. (A key that the source writes twice
-- has one value in both places.)
use aclmv.Prelude.{ℕ, String, Option, none, some, [], ◌∷◌, Assoc, lookup}
use aclmv.Encoder.{Result, ok, err, key_error, Asm, lift}

-- SETCC_OPCODE
abbrev pub setcc_opcode : Assoc ℕ
setcc_opcode =
    ("eq", 0x94)
    ∷ ("neq", 0x95)
    ∷ ("gt", 0x9f)
    ∷ ("lt", 0x9c)
    ∷ ("gte", 0x9d)
    ∷ ("lte", 0x9e)
    ∷ ("above", 0x97)
    ∷ ("below", 0x92)
    ∷ ("abe", 0x96)
    ∷ ("ble", 0x96)
    ∷ ("zf", 0x94)
    ∷ ("e", 0x94)
    ∷ ("z", 0x94)
    ∷ ("nz", 0x95)
    ∷ ("ne", 0x95)
    ∷ ("g", 0x9f)
    ∷ ("nle", 0x9f)
    ∷ ("l", 0x9c)
    ∷ ("nge", 0x9c)
    ∷ ("ge", 0x9d)
    ∷ ("nl", 0x9d)
    ∷ ("le", 0x9e)
    ∷ ("ng", 0x9e)
    ∷ ("a", 0x97)
    ∷ ("nbe", 0x97)
    ∷ ("b", 0x92)
    ∷ ("c", 0x92)
    ∷ ("nae", 0x92)
    ∷ ("ae", 0x93)
    ∷ ("nb", 0x93)
    ∷ ("nc", 0x93)
    ∷ ("be", 0x96)
    ∷ ("na", 0x96)
    ∷ ("s", 0x98)
    ∷ ("ns", 0x99)
    ∷ ("o", 0x90)
    ∷ ("no", 0x91)
    ∷ ("p", 0x9a)
    ∷ ("pe", 0x9a)
    ∷ ("np", 0x9b)
    ∷ ("po", 0x9b)
    ∷ []

-- JCC_OPCODE
abbrev pub jcc_opcode : Assoc ℕ
jcc_opcode =
    ("eq", 0x84)
    ∷ ("neq", 0x85)
    ∷ ("gt", 0x8f)
    ∷ ("lt", 0x8c)
    ∷ ("gte", 0x8d)
    ∷ ("lte", 0x8e)
    ∷ ("above", 0x87)
    ∷ ("below", 0x82)
    ∷ ("abe", 0x83)
    ∷ ("ae", 0x83)
    ∷ ("be", 0x86)
    ∷ ("ble", 0x86)
    ∷ ("zf", 0x84)
    ∷ ("e", 0x84)
    ∷ ("z", 0x84)
    ∷ ("nz", 0x85)
    ∷ ("ne", 0x85)
    ∷ ("g", 0x8f)
    ∷ ("nle", 0x8f)
    ∷ ("l", 0x8c)
    ∷ ("nge", 0x8c)
    ∷ ("ge", 0x8d)
    ∷ ("nl", 0x8d)
    ∷ ("le", 0x8e)
    ∷ ("ng", 0x8e)
    ∷ ("a", 0x87)
    ∷ ("nbe", 0x87)
    ∷ ("b", 0x82)
    ∷ ("c", 0x82)
    ∷ ("nae", 0x82)
    ∷ ("nb", 0x83)
    ∷ ("nc", 0x83)
    ∷ ("na", 0x86)
    ∷ ("s", 0x88)
    ∷ ("ns", 0x89)
    ∷ ("o", 0x80)
    ∷ ("no", 0x81)
    ∷ ("p", 0x8a)
    ∷ ("pe", 0x8a)
    ∷ ("np", 0x8b)
    ∷ ("po", 0x8b)
    ∷ []

-- CMOV_OPCODE
abbrev pub cmov_opcode : Assoc ℕ
cmov_opcode =
    ("eq", 0x44)
    ∷ ("neq", 0x45)
    ∷ ("lt", 0x4c)
    ∷ ("gt", 0x4f)
    ∷ ("lte", 0x4e)
    ∷ ("gte", 0x4d)
    ∷ ("below", 0x42)
    ∷ ("above", 0x47)
    ∷ ("abe", 0x43)
    ∷ ("ae", 0x43)
    ∷ ("be", 0x46)
    ∷ ("ble", 0x46)
    ∷ []

-- `TABLE[cond]`, which raises KeyError when there is none.
abbrev pub found_key : Option ℕ → Result ℕ
found_key none = err key_error
found_key (some op) = ok op

unfoldable pub key : Assoc ℕ → String → Asm ℕ
unfolding lookup
key table cond = lift (found_key (lookup cond table))

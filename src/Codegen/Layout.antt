-- ===== src/Codegen/Layout.antt =====
-- Where the code generator places the local variables of a function: the loop of ACLM/codegen.py, `_emit_fn`.
use aclmv.Prelude.{
  ◌≢◌, ℕ, ◌+◌, ◌%◌, ◌≤◌, ◌≡◌, ◌⊎◌, String, some, List, [], ◌∷◌, All, lookup, insert, Assoc,
}
use aclmv.Prelude.Int.{ℤ, negsuc}

-- The sizes of the locals; of two with one name, the later one counts.
abbrev pub sizes : Assoc ℕ → List (String × ℕ) → Assoc ℕ
sizes z [] = z
sizes z ((name, size) ∷ rest) = sizes (insert name size z) rest

-- A slot starts k bytes below the 32 bytes of the saved registers, with room for the local: it ends at or below
-- them, starts at a multiple of 8, and lies inside the total size.
abbrev pub Slot : ℕ → ℤ → ℕ → Type 0
Slot total off size = (k : ℕ) × (off ≡ negsuc (31 + k)) × (k % 8 ≡ 0) × (size ≤ k) × (k ≤ total)

abbrev pub Slots : ℕ → Assoc ℤ → Assoc ℕ → Type 0
Slots total t z =
    (name : String) (off : ℤ) (size : ℕ)
    → lookup name t ≡ some off
    → lookup name z ≡ some size
    → Slot total off size

-- The slots of two locals do not overlap: one ends at or below the start of the other.
abbrev pub Disjoint : Assoc ℤ → Assoc ℕ → Type 0
Disjoint t z =
    (a b : String) (j k m n : ℕ)
    → a ≢ b
    → lookup a t ≡ some (negsuc (31 + j))
    → lookup b t ≡ some (negsuc (31 + k))
    → lookup a z ≡ some m
    → lookup b z ≡ some n
    → (k + m ≤ j) ⊎ (j + n ≤ k)

-- Every local has a slot.
abbrev pub HasSlots : Assoc ℤ → List (String × ℕ) → Type 0
HasSlots t = All (λ p. (off : ℤ) × (lookup p.0 t ≡ some off))

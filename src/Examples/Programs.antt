-- ===== src/Examples/Programs.antt =====
-- A linked jump, and a small program of calls.
use aclmv.Prelude.{
  ℕ, ◌≤◌, ◌≡◌, ◌↔◌, refl, false, none, some, List, [], ◌∷◌, ◌++◌, arith, inr, length, get_elem?,
  All, lookup,
}
use aclmv.Encoder.{
  ok, Assembler, init, skip, label, emit, emit_rel32_fixup, link, link_loop, link_reloc, s32,
  offsets,
}
use aclmv.Encoder.Linking.{Apart, Resolvable}
use aclmv.Encoder.Linking.Loop.{LandsOn, link_lem, link-Outside, link_iff}
use aclmv.Encoder.Flow
use aclmv.Encoder.Program.{perform, assemble}
use aclmv.Encoder.Call.{Call}
use aclmv.Encoder.Program.Linked.{assemble-link, assemble-label}

-- jmp back; back is the start of the code.
abbrev backward_jump : Assembler
backward_jump = record {
  code = 0xe9 ∷ 0 ∷ 0 ∷ 0 ∷ 0 ∷ 0xc3 ∷ [];
  labels = ("back", 0) ∷ [];
  relocs = record { offset = 1; target = "back"; kind = "rel32"; size = 4 } ∷ [];
  deterministic = false;
}

abbrev linked_jump : Assembler
linked_jump = record {
  code = 0xe9 ∷ 251 ∷ 255 ∷ 255 ∷ 255 ∷ 0xc3 ∷ [];
  labels = ("back", 0) ∷ [];
  relocs = record { offset = 1; target = "back"; kind = "rel32"; size = 4 } ∷ [];
  deterministic = false;
}

backward_jump-Apart : Apart 0 (length backward_jump.code) backward_jump.relocs
backward_jump-Apart = (omega arith, omega arith, tt)

link-backward_jump : link none backward_jump ≡ ok (tt, linked_jump)
unfolding link link_loop link_reloc lookup s32
link-backward_jump = refl

link_lem_example :
    All (LandsOn linked_jump.code (offsets backward_jump none)) backward_jump.relocs
    × (length linked_jump.code ≡ length backward_jump.code)
    × (linked_jump.labels ≡ backward_jump.labels)
    × (linked_jump.relocs ≡ backward_jump.relocs)
link_lem_example = link_lem none backward_jump linked_jump backward_jump-Apart link-backward_jump

link-Outside_example : get_elem? linked_jump.code 5 ≡ get_elem? backward_jump.code 5
link-Outside_example =
    link-Outside none backward_jump linked_jump 5 backward_jump-Apart (inr (omega arith), tt)
      link-backward_jump

link_iff_example :
    ((s' : Assembler) × (link none backward_jump ≡ ok (tt, s')))
    ↔ All (λ r. (t : ℕ) × Resolvable (offsets backward_jump none) r t) backward_jump.relocs
link_iff_example = link_iff none backward_jump

-- A return, and a jump to behind it; and the assembler that the calls leave.
abbrev ret_then_jump : List Call
ret_then_jump = Call.ret ∷ Call.label_here "after" ∷ Call.jmp "after" ∷ []

abbrev ret_then_jump_left : Assembler
ret_then_jump_left = record {
  code = 0xc3 ∷ 0xe9 ∷ 0 ∷ 0 ∷ 0 ∷ 0 ∷ [];
  labels = ("after", 1) ∷ [];
  relocs = record { offset = 2; target = "after"; kind = "rel32"; size = 4 } ∷ [];
  deterministic = false;
}

abbrev ret_then_jump_linked : Assembler
ret_then_jump_linked = record {
  code = 0xc3 ∷ 0xe9 ∷ 251 ∷ 255 ∷ 255 ∷ 255 ∷ [];
  labels = ("after", 1) ∷ [];
  relocs = record { offset = 2; target = "after"; kind = "rel32"; size = 4 } ∷ [];
  deterministic = false;
}

assemble-ret_then_jump : assemble ret_then_jump init ≡ ok (tt, ret_then_jump_left)
unfolding assemble perform skip label lookup Flow.ret emit Flow.jmp emit_rel32_fixup
assemble-ret_then_jump = refl

link-ret_then_jump : link none ret_then_jump_left ≡ ok (tt, ret_then_jump_linked)
unfolding link link_loop link_reloc lookup s32
link-ret_then_jump = refl

assemble-link_example :
    All (LandsOn ret_then_jump_linked.code ret_then_jump_left.labels) ret_then_jump_left.relocs
    × All (λ p. p.1 ≤ length ret_then_jump_linked.code) ret_then_jump_left.labels
assemble-link_example =
    assemble-link ret_then_jump ret_then_jump_left ret_then_jump_linked assemble-ret_then_jump
      link-ret_then_jump

assemble-label_example :
    (t : Assembler) × (assemble (Call.ret ∷ []) init ≡ ok (tt, t))
    × (lookup "after" ret_then_jump_left.labels ≡ some (length t.code))
    × ((more : List ℕ) × (ret_then_jump_left.code ≡ t.code ++ more))
assemble-label_example =
    assemble-label (Call.ret ∷ []) (Call.jmp "after" ∷ []) "after" ret_then_jump_left
      assemble-ret_then_jump

-- ===== src/Examples.antt =====
-- Concrete runs of the library's theorems: here of single instructions.
pub mod Programs
pub mod Files
pub mod Compiled
use aclmv.Prelude.{
  ℕ, ◌+◌, ◌-◌, ◌^◌, ◌%◌, ◌≤◌, ◌≡◌, ◌≢◌, ◌↔◌, refl, true, false, none, some, String, List, [], ◌∷◌,
  ◌++◌, arith, if◌then◌else◌, inr, length, take, drop, get_elem?, All, lookup,
}
use aclmv.Prelude.Int.{pos, wrap}
use aclmv.Prelude.Text.{codes, is_in, strip, lower_char, find}
use aclmv.X86.{low, byte_register}
use aclmv.X86.Immediate.{read_mov_imm}
use aclmv.X86.Flags.{compare_flags, condition}
use aclmv.Encoder.{
  ok, Assembler, init, reg_num, skip, label, emit, emit_rel32_fixup, link, link_loop, link_reloc,
  s32, offsets,
}
use aclmv.Encoder.Emits.{emitted}
use aclmv.Encoder.Prefixes.{Encodes}
use aclmv.Encoder.Memory.{
  mov_reg_mem, mov_mem_reg, mov8_reg_mem, mov16_reg_mem, mov32_reg_mem, mov8_mem_reg, mov16_mem_reg,
  mov32_mem_reg,
}
use aclmv.Encoder.Memory.Decode.{Resolves}
use aclmv.Encoder.Memory.Access.{access}
use aclmv.Encoder.Memory.Narrow.{extended, extended_byte}
use aclmv.Encoder.Memory.Moves.{load-Encodes, store-Encodes}
use aclmv.Encoder.Move.{mov_reg_imm64}
use aclmv.Encoder.ImmediateLoads.{mov_reg_imm64_lem, mov_reg_imm64_deterministic}
use aclmv.Encoder.Linking.{Apart, Resolvable}
use aclmv.Encoder.Linking.Loop.{LandsOn, link_lem, link-Outside, link_iff}
use aclmv.Encoder.Registers.{between}
use aclmv.Encoder.Registers.Pairs.{
  rm_reg_rows, reg_rm_rows, rm_reg_rows-Encodes, reg_rm_rows-Encodes,
}
use aclmv.Encoder.Registers.Single.{digit_rows, digit_rows-Encodes}
use aclmv.Encoder.Conditions.{jcc_opcode, setcc_opcode, cmov_opcode}
use aclmv.Encoder.ConditionCodes.{
  Tests, comparisons, jcc_opcode-Tests, setcc_opcode-Tests, cmov_opcode-Tests, abe_disagree,
}
use aclmv.Regs.{resolve, is_reg_name, register}
use aclmv.Regs.Laws.{resolve-safe, resolve-resolve, is_reg_name_iff}
use aclmv.Encoder.Flow
use aclmv.Encoder.Vex.{pext_reg_reg, pdep_reg_reg}
use aclmv.Encoder.Vex.Decode.{
  EncodesVex, among, count_rows, source_rows, count_rows-EncodesVex, source_rows-EncodesVex,
  pext-pdep,
}
use aclmv.Encoder.Program.{perform, assemble}
use aclmv.Encoder.Call
use aclmv.Encoder.Call.{Call}
use aclmv.Encoder.Program.Linked.{assemble-link, assemble-label}
use aclmv.Elf.{build_elf64_exe, build_elf64_exe_wx, wx_code_data_file_offsets, load_vaddr, page}
use aclmv.Elf.Image.{number_at, Segment, build_elf64_exe_lem}
use aclmv.Elf.Split.{build_elf64_exe_wx_lem}

-- mov rax, [r12 + rcx * 8 + 16]
abbrev rax_r12_rcx : Resolves "rax" "r12" (some "rcx") 8 (pos 16) 0 12 (some 1)
unfolding reg_num lookup
rax_r12_rcx = record {
  reg_is = refl;
  base_is = refl;
  index_is = (refl, inr (inr (inr refl)));
  disp_fits = refl;
}

load-Encodes_example :
    Encodes (mov_reg_mem "rax" "r12" (pos 16) (some "rcx") 8) (access rax_r12_rcx 0 1 1 0 0x8b)
    × Encodes (mov8_reg_mem "rax" "r12" (pos 16) (some "rcx") 8) (access rax_r12_rcx 0 1 1 1 0xb6)
    × Encodes (mov16_reg_mem "rax" "r12" (pos 16) (some "rcx") 8) (access rax_r12_rcx 0 1 1 1 0xb7)
    × Encodes
        (mov32_reg_mem "rax" "r12" (pos 16) (some "rcx") 8)
        (access rax_r12_rcx 0 (if extended rax_r12_rcx then 1 else 0) 0 0 0x8b)
load-Encodes_example = load-Encodes rax_r12_rcx

store-Encodes_example :
    Encodes (mov_mem_reg "r12" (pos 16) "rax" (some "rcx") 8) (access rax_r12_rcx 0 1 1 0 0x89)
    × Encodes
        (mov8_mem_reg "r12" (pos 16) "rax" (some "rcx") 8)
        (access rax_r12_rcx 0 (if extended_byte rax_r12_rcx then 1 else 0) 0 0 0x88)
    × (byte_register (if extended_byte rax_r12_rcx then 1 else 0) 0 ≡ low 0)
    × Encodes
        (mov16_mem_reg "r12" (pos 16) "rax" (some "rcx") 8)
        (access rax_r12_rcx 0x66 1 0 0 0x89)
    × Encodes (mov32_mem_reg "r12" (pos 16) "rax" (some "rcx") 8) (access rax_r12_rcx 0 1 0 0 0x89)
store-Encodes_example = store-Encodes rax_r12_rcx

reg_num_r9 : reg_num "r9" ≡ ok 9
unfolding reg_num lookup
reg_num_r9 = refl

reg_num_rbx : reg_num "rbx" ≡ ok 3
unfolding reg_num lookup
reg_num_rbx = refl

mov_reg_imm64_lem_example :
    (bytes : List ℕ) × (mov_reg_imm64 "r9" (pos 77) init ≡ ok (tt, emitted init bytes))
    × ((rest : List ℕ) → read_mov_imm (bytes ++ rest) ≡ some (9, wrap (2 ^ 64) (pos 77), rest))
mov_reg_imm64_lem_example = mov_reg_imm64_lem "r9" (pos 77) init reg_num_r9

abbrev fixed_width : Assembler
fixed_width = record { code = []; labels = []; relocs = []; deterministic = true }

mov_reg_imm64_deterministic_example :
    (bytes : List ℕ) × (mov_reg_imm64 "r9" (pos 77) fixed_width
      ≡ ok (tt, emitted fixed_width bytes))
    × (length bytes ≡ 10)
mov_reg_imm64_deterministic_example =
    mov_reg_imm64_deterministic "r9" (pos 77) fixed_width reg_num_r9 refl

rm_reg_rows-Encodes_example :
    All (λ x. Encodes (x.method "r9" "rbx") (between x.prefix x.opmap x.opcode 3 9)) rm_reg_rows
rm_reg_rows-Encodes_example = rm_reg_rows-Encodes "r9" "rbx" reg_num_r9 reg_num_rbx

reg_rm_rows-Encodes_example :
    All (λ x. Encodes (x.method "r9" "rbx") (between x.prefix x.opmap x.opcode 9 3)) reg_rm_rows
reg_rm_rows-Encodes_example = reg_rm_rows-Encodes "r9" "rbx" reg_num_r9 reg_num_rbx

digit_rows-Encodes_example :
    All (λ x. Encodes (x.method "r9") (between 0 x.opmap x.opcode x.digit 9)) digit_rows
digit_rows-Encodes_example = digit_rows-Encodes "r9" reg_num_r9

jcc_opcode-Tests_example :
    All (Tests (λ name. lookup name jcc_opcode) 0x80 3 (2 ^ 64 - 1) false) comparisons
jcc_opcode-Tests_example = jcc_opcode-Tests 3 (2 ^ 64 - 1) false (omega arith) (omega arith)

setcc_opcode-Tests_example :
    All (Tests (λ name. lookup name setcc_opcode) 0x90 3 (2 ^ 64 - 1) false) comparisons
setcc_opcode-Tests_example = setcc_opcode-Tests 3 (2 ^ 64 - 1) false (omega arith) (omega arith)

cmov_opcode-Tests_example :
    All (Tests (λ name. lookup name cmov_opcode) 0x40 3 (2 ^ 64 - 1) false) comparisons
cmov_opcode-Tests_example = cmov_opcode-Tests 3 (2 ^ 64 - 1) false (omega arith) (omega arith)

abe_disagree_example :
    (j : ℕ) × (k : ℕ) × (lookup "abe" jcc_opcode ≡ some (0x80 + j))
    × (lookup "abe" setcc_opcode ≡ some (0x90 + k))
    × (condition j (compare_flags false 3 5) ≢ condition k (compare_flags false 3 5))
abe_disagree_example = abe_disagree 3 5 false (omega arith) (omega arith) (omega arith)

reg_num_r12 : reg_num "r12" ≡ ok 12
unfolding reg_num lookup
reg_num_r12 = refl

count_rows-EncodesVex_example :
    All (λ t. EncodesVex (t.method "r9" "rbx" "r12") (among t.pp t.opcode 9 12 3)) count_rows
count_rows-EncodesVex_example =
    count_rows-EncodesVex "r9" "rbx" "r12" reg_num_r9 reg_num_rbx reg_num_r12

source_rows-EncodesVex_example :
    All (λ t. EncodesVex (t.method "r9" "rbx" "r12") (among t.pp t.opcode 9 3 12)) source_rows
source_rows-EncodesVex_example =
    source_rows-EncodesVex "r9" "rbx" "r12" reg_num_r9 reg_num_rbx reg_num_r12

pext-pdep_example :
    EncodesVex (pext_reg_reg "r9" "rbx" "r12") (among 3 0xf5 9 3 12)
    × EncodesVex (pdep_reg_reg "r9" "rbx" "r12") (among 2 0xf5 9 3 12)
pext-pdep_example = pext-pdep "r9" "rbx" "r12" reg_num_r9 reg_num_rbx reg_num_r12

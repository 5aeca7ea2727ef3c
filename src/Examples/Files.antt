-- ===== src/Examples/Files.antt =====
-- Register names, and a small program as a file.
use aclmv.Prelude.{
  ℕ, ◌+◌, ◌-◌, ◌%◌, ◌≤◌, ◌≡◌, ◌≢◌, ◌↔◌, refl, true, some, String, List, [], ◌∷◌, ◌++◌, arith,
  length, take, drop, get_elem?,
}
use aclmv.Prelude.Text.{codes, is_in, strip, lower_char, find}
use aclmv.Encoder.{ok, reg_num}
use aclmv.Regs.{resolve, is_reg_name, register}
use aclmv.Regs.Laws.{resolve-safe, resolve-resolve, is_reg_name_iff}
use aclmv.Elf.{build_elf64_exe, build_elf64_exe_wx, wx_code_data_file_offsets, load_vaddr, page}
use aclmv.Elf.Image.{number_at, Segment, build_elf64_exe_lem}
use aclmv.Elf.Split.{build_elf64_exe_wx_lem}

resolve_reg10 : resolve (codes " Reg10") ≡ register "r12"
unfolding resolve is_in strip lower_char find
resolve_reg10 = refl

resolve-safe_example : (n : ℕ) × (reg_num "r12" ≡ ok n) × (n ≢ 4) × (n ≢ 5) × (n ≢ 11) × (n ≢ 15)
resolve-safe_example = resolve-safe (codes " Reg10") "r12" resolve_reg10

resolve-resolve_example : resolve (codes "r12") ≡ register "r12"
resolve-resolve_example = resolve-resolve (codes " Reg10") "r12" resolve_reg10

is_reg_name_iff_example :
    (is_reg_name (codes "r11") ≡ true) ↔ ((p : String) × (resolve (codes "r11") ≡ register p))
is_reg_name_iff_example = is_reg_name_iff (codes "r11")

-- ret, and a data word.
abbrev one_ret : List ℕ
one_ret = 0xc3 ∷ []

abbrev one_word : List ℕ
one_word = 7 ∷ 0 ∷ 0 ∷ 0 ∷ []

build_elf64_exe_lem_example :
    (file : List ℕ) × (build_elf64_exe one_ret one_word 0 ≡ some file)
    × (number_at file 24 8 ≡ some (load_vaddr + 120 + 0))
    × (number_at file 32 8 ≡ some 64)
    × (number_at file 56 2 ≡ some 1)
    × Segment file 64 7 0 load_vaddr (length file)
    × (drop 120 file ≡ one_ret ++ one_word)
    × (get_elem? file (load_vaddr + 120 + 0 - load_vaddr) ≡ get_elem? (one_ret ++ one_word) 0)
build_elf64_exe_lem_example = build_elf64_exe_lem one_ret one_word 0 (omega arith) (omega arith)

build_elf64_exe_wx_lem_example :
    (file : List ℕ) × (co : ℕ) × (do' : ℕ) × (build_elf64_exe_wx one_ret one_word 0 ≡ some file)
    × (wx_code_data_file_offsets (length one_ret) ≡ (co, do'))
    × (number_at file 24 8 ≡ some (load_vaddr + co + 0))
    × (number_at file 56 2 ≡ some 2)
    × Segment file 64 5 co (load_vaddr + co) (length one_ret)
    × Segment file 120 6 do' (load_vaddr + do') (length one_word)
    × (take (length one_ret) (drop co file) ≡ one_ret)
    × (drop do' file ≡ one_word)
    × (co % page ≡ 0)
    × (do' % page ≡ 0)
    × (co + length one_ret ≤ do')
build_elf64_exe_wx_lem_example =
    build_elf64_exe_wx_lem one_ret one_word 0 (omega arith) (omega arith) (omega arith)

-- ===== src/Elf/Split.antt =====
-- The executable with separate code and data segments.
use aclmv.Prelude.{
  ℕ, ◌+◌, ◌-◌, ◌%◌, ◌^◌, ◌<◌, ◌≤◌, ◌≡◌, ◌∙◌, refl, sym, ap, some, List, ◌++◌, length, length-append,
  length-replicate, replicate, drop, take, drop-append_length, take-append_length, arith,
  append_assoc,
}
use aclmv.X86.Immediate.{read_le}
use aclmv.Encoder.{le_bytes}
use aclmv.Elf.{
  ehdr64, phdr64, load_vaddr, page, page_up, pad_to, wx_code_data_file_offsets, build_elf64_exe_wx,
}
use aclmv.Elf.Pack.{all_bytes, pad_to_lem}
use aclmv.Elf.Image.{number_at, Segment, ehdr64_ok, phdr64_ok, quad_value}

drop-append_eq : (n : ℕ) (xs ys : List ℕ) → n ≡ length xs → drop n (xs ++ ys) ≡ ys
drop-append_eq n xs ys e = rw e (drop-append_length xs ys)

module _ (code data' : List ℕ) (eo : ℕ) where
  abbrev data_off : ℕ
  data_off = page_up (4096 + length code)

  abbrev headers : List ℕ
  headers =
      all_bytes (ehdr64 (load_vaddr + 4096 + eo) 2)
      ++ all_bytes (phdr64 5 4096 (load_vaddr + 4096) (length code))
      ++ all_bytes (phdr64 6 data_off (load_vaddr + data_off) (length data'))

  abbrev front : List ℕ
  front = headers ++ replicate (4096 - 176) 0

  abbrev upto_data : List ℕ
  upto_data = (front ++ code) ++ replicate (data_off - (4096 + length code)) 0

  length-front : length front ≡ 4096
  unfolding le_bytes
  length-front = omega (arith, length-replicate {A = ℕ} (4096 - 176) 0)

  length_upto : length upto_data ≡ data_off
  length_upto = omega (
    arith,
    length-front,
    length-append front code,
    length-append (front ++ code) (replicate (data_off - (4096 + length code)) 0),
    length-replicate {A = ℕ} (data_off - (4096 + length code)) 0,
  )

  padded_front : pad_to 4096 headers ≡ front
  unfolding le_bytes
  padded_front = pad_to_lem 4096 headers

  padded_code : pad_to data_off (front ++ code) ≡ upto_data
  padded_code =
      pad_to_lem data_off (front ++ code)
      ∙ ap (λ n. (front ++ code) ++ replicate (data_off - n) 0)
          (omega (arith, length-front, length-append front code))

  code-Segment :
      length code < 2 ^ 32
      → Segment (upto_data ++ data') 64 5 4096 (load_vaddr + 4096) (length code)
  unfolding le_bytes
  code-Segment h = record {
    kind = unfold read_le in refl;
    flags_are = unfold read_le in refl;
    offset_is = quad_value 4096 _ (omega arith);
    vaddr_is = quad_value (load_vaddr + 4096) _ (omega arith);
    filesz_is = quad_value (length code) _ (omega arith);
    memsz_is = quad_value (length code) _ (omega arith);
  }

  data-Segment :
      length code < 2 ^ 32
      → length data' < 2 ^ 32
      → Segment (upto_data ++ data') 120 6 data_off (load_vaddr + data_off) (length data')
  unfolding le_bytes
  data-Segment h k = record {
    kind = unfold read_le in refl;
    flags_are = unfold read_le in refl;
    offset_is = quad_value data_off _ (omega arith);
    vaddr_is = quad_value (load_vaddr + data_off) _ (omega arith);
    filesz_is = quad_value (length data') _ (omega arith);
    memsz_is = quad_value (length data') _ (omega arith);
  }

  -- For code, data and an entry offset below 2 ^ 32 the file is written. Its entry point and both program
  -- headers read back: a segment of flags 5 (read and execute) that is the code, and one of flags 6 (read
  -- and write) that is the data, at the page-aligned and disjoint file offsets that
  -- `wx_code_data_file_offsets` gives, with addresses at the same distance.
  pub build_elf64_exe_wx_lem :
      length code < 2 ^ 32
      → length data' < 2 ^ 32
      → eo < 2 ^ 32
      → (file : List ℕ) × (co : ℕ) × (do' : ℕ) × (build_elf64_exe_wx code data' eo ≡ some file)
        × (wx_code_data_file_offsets (length code) ≡ (co, do'))
        × (number_at file 24 8 ≡ some (load_vaddr + co + eo))
        × (number_at file 56 2 ≡ some 2)
        × Segment file 64 5 co (load_vaddr + co) (length code)
        × Segment file 120 6 do' (load_vaddr + do') (length data')
        × (take (length code) (drop co file) ≡ code)
        × (drop do' file ≡ data')
        × (co % page ≡ 0)
        × (do' % page ≡ 0)
        × (co + length code ≤ do')
  unfolding build_elf64_exe_wx wx_code_data_file_offsets
  build_elf64_exe_wx_lem hc hd he = (
    upto_data ++ data',
    4096,
    data_off,
    rw (
      ehdr64_ok (load_vaddr + 4096 + eo) 2 (omega arith) (omega arith),
      phdr64_ok 5 4096 (load_vaddr + 4096) (length code) (omega arith) (omega arith) (omega arith)
          (omega arith),
      phdr64_ok 6 data_off (load_vaddr + data_off) (length data') (omega arith) (omega arith)
          (omega arith) (omega arith),
      padded_front,
      padded_code,
    ),
    refl,
    unfold le_bytes in quad_value (load_vaddr + 4096 + eo) _ (omega arith),
    unfold read_le le_bytes in refl,
    code-Segment hc,
    data-Segment hc hd,
    code_part,
    drop-append_eq data_off upto_data data' (sym length_upto),
    refl,
    omega arith,
    omega arith,
  )
    where
      pad : List ℕ
      pad = replicate (data_off - (4096 + length code)) 0

      code_part : take (length code) (drop 4096 (upto_data ++ data')) ≡ code
      code_part =
          rw
            (
              append_assoc (front ++ code) pad data',
              append_assoc front code (pad ++ data'),
              drop-append_eq 4096 front (code ++ (pad ++ data')) (sym length-front),
            )
            (take-append_length code (pad ++ data'))

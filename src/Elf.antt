-- ===== src/Elf.antt =====
-- ACLM/elfwriter.py: the ELF64 and ELF32 executables, the Multiboot header and the layout with separate
-- code and data segments.
pub mod Pack
pub mod Image
pub mod Split
use aclmv.Prelude.{
  ℕ, zero, suc, ◌+◌, ◌-◌, ◌%◌, ◌^◌, ◌*◌, Bool, true, Option, none, some, List, [], ◌∷◌, ◌++◌,
  length, replicate, ltb, if◌then◌else◌,
}
use aclmv.Encoder.{le_bytes}

-- The fields of a `struct` format: H, I, Q and a byte string.
pub data Field : Type 0 where
  half : ℕ → Field
  int : ℕ → Field
  quad : ℕ → Field
  bytes : List ℕ → Field

abbrev pub field_bytes : Field → List ℕ
field_bytes (half v) = le_bytes 2 v
field_bytes (int v) = le_bytes 4 v
field_bytes (quad v) = le_bytes 8 v
field_bytes (bytes b) = b

-- `struct.pack` raises struct.error when a value does not fit its field: `none`.
abbrev pub in_range : Field → Bool
in_range (half v) = ltb v (2 ^ 16)
in_range (int v) = ltb v (2 ^ 32)
in_range (quad v) = ltb v (2 ^ 64)
in_range (bytes b) = true

abbrev cons_bytes : List ℕ → Option (List ℕ) → Option (List ℕ)
cons_bytes b none = none
cons_bytes b (some bs) = some (b ++ bs)

unfoldable pub pack : List Field → Option (List ℕ)
pack [] = some []
pack (f ∷ fs) = if in_range f then cons_bytes (field_bytes f) (pack fs) else none

abbrev pub page : ℕ
page = 0x1000

abbrev pub load_vaddr : ℕ
load_vaddr = 0x400000

abbrev pub ehdr_size : ℕ
ehdr_size = 64

abbrev pub phdr_size : ℕ
phdr_size = 56

-- e_ident: the magic, the class, little-endian, version 1, and padding.
abbrev pub ident : ℕ → List ℕ
ident class = 0x7f ∷ 0x45 ∷ 0x4c ∷ 0x46 ∷ class ∷ 1 ∷ 1 ∷ 0 ∷ replicate 8 0

-- The ELF64 header, with the entry point and the number of program headers.
abbrev pub ehdr64 : ℕ → ℕ → List Field
ehdr64 entry phnum =
    bytes (ident 2)
    ∷ half 2
    ∷ half 0x3e
    ∷ int 1
    ∷ quad entry
    ∷ quad ehdr_size
    ∷ quad 0
    ∷ int 0
    ∷ half ehdr_size
    ∷ half phdr_size
    ∷ half phnum
    ∷ half 0
    ∷ half 0
    ∷ half 0
    ∷ []

-- A PT_LOAD program header: flags, file offset, address (virtual and physical), size.
abbrev pub phdr64 : ℕ → ℕ → ℕ → ℕ → List Field
phdr64 flags offset vaddr size =
    int 1
    ∷ int flags
    ∷ quad offset
    ∷ quad vaddr
    ∷ quad vaddr
    ∷ quad size
    ∷ quad size
    ∷ quad page
    ∷ []

-- The parts of a file, one behind the other.
abbrev pub join : Option (List ℕ) → (List ℕ → Option (List ℕ)) → Option (List ℕ)
join none f = none
join (some b) f = f b

unfoldable pub build_elf64_exe : List ℕ → List ℕ → ℕ → Option (List ℕ)
build_elf64_exe code data' entry_offset_in_code =
    let header_total : ℕ = ehdr_size + phdr_size in
    let code_vaddr : ℕ = load_vaddr + header_total in
    let entry : ℕ = code_vaddr + entry_offset_in_code in
    let filesz : ℕ = header_total + length code + length data' in
    join (pack (ehdr64 entry 1)) λ ehdr.
      join (pack (phdr64 7 0 load_vaddr filesz)) λ phdr. some (ehdr ++ phdr ++ code ++ data')

unfoldable pub build_elf32_multiboot : List ℕ → List ℕ → ℕ → ℕ → Option (List ℕ)
build_elf32_multiboot code data' entry_offset_in_code load_addr =
    let header_total : ℕ = 52 + 32 in
    let code_vaddr : ℕ = load_addr + header_total in
    let entry : ℕ = code_vaddr + entry_offset_in_code in
    let filesz : ℕ = header_total + length code + length data' in
    join
      (pack (
        bytes (ident 1)
        ∷ half 2
        ∷ half 3
        ∷ int 1
        ∷ int entry
        ∷ int 52
        ∷ int 0
        ∷ int 0
        ∷ half 52
        ∷ half 32
        ∷ half 1
        ∷ half 0
        ∷ half 0
        ∷ half 0
        ∷ []))
      λ ehdr.
        join
          (pack (
            int 1
            ∷ int 0
            ∷ int load_addr
            ∷ int load_addr
            ∷ int filesz
            ∷ int filesz
            ∷ int 7
            ∷ int page
            ∷ []))
          λ phdr. some (ehdr ++ phdr ++ code ++ data')

abbrev pub multiboot_magic : ℕ
multiboot_magic = 0x1badb002

abbrev pub multiboot_flags : ℕ
multiboot_flags = 3

-- `(0 - (MAGIC + FLAGS)) & 0xFFFFFFFF`
abbrev pub multiboot_checksum : ℕ
multiboot_checksum = (2 ^ 32 - (multiboot_magic + multiboot_flags)) % 2 ^ 32

unfoldable pub build_multiboot_header : Option (List ℕ)
unfolding pack
build_multiboot_header =
    pack (int multiboot_magic ∷ int multiboot_flags ∷ int multiboot_checksum ∷ [])

-- `(x + PAGE - 1) & ~(PAGE - 1)`
abbrev pub page_up : ℕ → ℕ
page_up x = x + page - 1 - (x + page - 1) % page

-- `while len(blob) < end: blob.append(0)`, with the rounds that are left to run.
unfoldable pub pad_loop : ℕ → ℕ → List ℕ → List ℕ
pad_loop zero end blob = blob
pad_loop (suc fuel) end blob =
    let rest = pad_loop fuel end (blob ++ (0 ∷ [])) in if ltb (length blob) end then rest else blob

unfoldable pub pad_to : ℕ → List ℕ → List ℕ
unfolding pad_loop
pad_to end blob = pad_loop end end blob

-- `wx_code_data_file_offsets`
unfoldable pub wx_code_data_file_offsets : ℕ → ℕ × ℕ
wx_code_data_file_offsets code_len =
    let code_off : ℕ = page_up (64 + 2 * 56) in (code_off, page_up (code_off + code_len))

unfoldable pub build_elf64_exe_wx : List ℕ → List ℕ → ℕ → Option (List ℕ)
build_elf64_exe_wx code data' entry_offset_in_code =
    let code_off : ℕ = page_up (64 + 2 * 56) in
    let code_vaddr : ℕ = load_vaddr + code_off in
    let data_off : ℕ = page_up (code_off + length code) in
    let data_vaddr : ℕ = load_vaddr + data_off in
    let entry : ℕ = code_vaddr + entry_offset_in_code in
    join (pack (ehdr64 entry 2)) λ ehdr.
      join (pack (phdr64 5 code_off code_vaddr (length code))) λ phdr0.
        join (pack (phdr64 6 data_off data_vaddr (length data'))) λ phdr1.
          some (pad_to data_off (pad_to code_off (ehdr ++ phdr0 ++ phdr1) ++ code) ++ data')

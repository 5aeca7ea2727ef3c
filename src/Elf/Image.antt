-- ===== src/Elf/Image.antt =====
-- The executable of one segment, as a loader reads it.
use aclmv.Prelude.{
  ℕ, ◌+◌, ◌-◌, ◌^◌, ◌<◌, ◌≡◌, ◌∙◌, refl, sym, ap, true, Option, none, some, List, ◌++◌, length,
  length-append, drop, get_elem?, get_elem?-drop, arith,
}
use aclmv.X86.Immediate.{read_le}
use aclmv.Encoder.{le_bytes}
use aclmv.Elf.{quad, in_range, pack, ehdr64, phdr64, load_vaddr, build_elf64_exe}
use aclmv.Elf.Pack.{all_bytes, pack-in_range}

-- The little-endian number of `n` bytes at the offset `off` of a file.
abbrev first : Option (ℕ × List ℕ) → Option ℕ
first none = none
first (some (v, rest)) = some v

abbrev pub number_at : List ℕ → ℕ → ℕ → Option ℕ
number_at file off n = first (read_le n (drop off file))

in_range_quad : (v : ℕ) → v < 2 ^ 64 → in_range (quad v) ≡ true
in_range_quad v h = ground arith

pub ehdr64_ok :
    (entry phnum : ℕ)
    → entry < 2 ^ 64
    → phnum < 2 ^ 16
    → pack (ehdr64 entry phnum) ≡ some (all_bytes (ehdr64 entry phnum))
ehdr64_ok entry phnum h k = pack-in_range (ehdr64 entry phnum) (
  refl,
  (
    refl,
    (
      refl,
      (
        refl,
        (
          in_range_quad entry h,
          (refl, (refl, (refl, (refl, (refl, (ground arith, (refl, (refl, (refl, tt))))))))),
        ),
      ),
    ),
  ),
)

pub phdr64_ok :
    (flags offset vaddr size : ℕ)
    → flags < 8
    → offset < 2 ^ 64
    → vaddr < 2 ^ 64
    → size < 2 ^ 64
    → pack (phdr64 flags offset vaddr size) ≡ some (all_bytes (phdr64 flags offset vaddr size))
phdr64_ok flags offset vaddr size f o v s = pack-in_range (phdr64 flags offset vaddr size) (
  refl,
  (
    ground arith,
    (
      in_range_quad offset o,
      (
        in_range_quad vaddr v,
        (in_range_quad vaddr v, (in_range_quad size s, (in_range_quad size s, (refl, tt)))),
      ),
    ),
  ),
)

pub quad_value :
    (v : ℕ) (rest : List ℕ) → v < 2 ^ 64 → first (read_le 8 (le_bytes 8 v ++ rest)) ≡ some v
unfolding read_le le_bytes
quad_value v rest h = ap some (omega arith)

-- What the loader reads from the header and the one program header.
pub record Segment (file : List ℕ) (header flags offset vaddr size : ℕ) : Type 0 where
  pub kind : number_at file header 4 ≡ some 1
  pub flags_are : number_at file (header + 4) 4 ≡ some flags
  pub offset_is : number_at file (header + 8) 8 ≡ some offset
  pub vaddr_is : number_at file (header + 16) 8 ≡ some vaddr
  pub filesz_is : number_at file (header + 32) 8 ≡ some size
  pub memsz_is : number_at file (header + 40) 8 ≡ some size

module _ (code data' : List ℕ) (eo : ℕ) where
  abbrev entry : ℕ
  entry = load_vaddr + 120 + eo

  abbrev image_size : ℕ
  image_size = 120 + length code + length data'

  abbrev image : List ℕ
  image =
      all_bytes (ehdr64 entry 1) ++ all_bytes (phdr64 7 0 load_vaddr image_size) ++ code ++ data'

  length-image : length image ≡ image_size
  unfolding le_bytes
  length-image = omega (arith, length-append code data')

  body_image : drop 120 image ≡ code ++ data'
  unfolding le_bytes
  body_image = refl

  Segment-image : image_size < 2 ^ 64 → Segment image 64 7 0 load_vaddr image_size
  unfolding le_bytes
  Segment-image h = record {
    kind = unfold read_le in refl;
    flags_are = unfold read_le in refl;
    offset_is = unfold read_le in refl;
    vaddr_is = unfold read_le in refl;
    filesz_is = quad_value image_size _ h;
    memsz_is = quad_value image_size _ h;
  }

  -- For sizes and an entry that fit 64 bits the file is written. Its entry point and its one program
  -- header, of the whole file, read back, and the entry's address is mapped to the byte of code and data at
  -- the entry offset.
  pub build_elf64_exe_lem :
      entry < 2 ^ 64
      → image_size < 2 ^ 64
      → (file : List ℕ) × (build_elf64_exe code data' eo ≡ some file)
        × (number_at file 24 8 ≡ some entry)
        × (number_at file 32 8 ≡ some 64)
        × (number_at file 56 2 ≡ some 1)
        × Segment file 64 7 0 load_vaddr (length file)
        × (drop 120 file ≡ code ++ data')
        × (get_elem? file (entry - load_vaddr) ≡ get_elem? (code ++ data') eo)
  unfolding build_elf64_exe le_bytes
  build_elf64_exe_lem he hs = (
    image,
    rw (
      ehdr64_ok entry 1 he (omega arith),
      phdr64_ok 7 0 load_vaddr image_size (omega arith) (omega arith) (omega arith) hs,
    ),
    quad_value entry _ he,
    unfold read_le in refl,
    unfold read_le in refl,
    rw length-image (Segment-image hs),
    body_image,
    ap (get_elem? image) {x = entry - load_vaddr} {y = eo + 120} (omega arith)
        ∙ sym (get_elem?-drop 120 eo image),
  )

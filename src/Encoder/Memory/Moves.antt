-- ===== src/Encoder/Memory/Moves.antt =====
-- The eight `mov` methods of the encoder with a memory operand.
use aclmv.Prelude.{ℕ, ◌≡◌, refl, Option, String, arith, if◌then◌else◌}
use aclmv.Prelude.Int.{ℤ}
use aclmv.X86.{low, byte_register}
use aclmv.Encoder.Prefixes.{Encodes}
use aclmv.Encoder.Memory.{
  mov_reg_mem, mov_mem_reg, mov8_reg_mem, mov16_reg_mem, mov32_reg_mem, mov8_mem_reg, mov16_mem_reg,
  mov32_mem_reg,
}
use aclmv.Encoder.Memory.Decode.{Resolves}
use aclmv.Encoder.Memory.Access.{access, emit_mem_op-Encodes, emit_mem_op_0f-Encodes}
use aclmv.Encoder.Memory.Narrow.{
  extended, extended_byte, mov32_reg_mem-Encodes, store8-Encodes, store16-Encodes, store32-Encodes,
}

module _ {reg base : String} {index : Option String} {scale : ℕ} {disp : ℤ} {r b : ℕ}
    {idx : Option ℕ} (h : Resolves reg base index scale disp r b idx) where
  -- Let the names resolve and the displacement fit 32 bits. Each of the four loads returns and only appends
  -- bytes; the processor reads these as the load of its width from [base + index * scale + disp] to the
  -- register (`mov` of 64 and 32 bits, `movzx` of 8 and 16). An index rsp is read as no index.
  pub load-Encodes :
      Encodes (mov_reg_mem reg base disp index scale) (access h 0 1 1 0 0x8b)
      × Encodes (mov8_reg_mem reg base disp index scale) (access h 0 1 1 1 0xb6)
      × Encodes (mov16_reg_mem reg base disp index scale) (access h 0 1 1 1 0xb7)
      × Encodes
          (mov32_reg_mem reg base disp index scale)
          (access h 0 (if extended h then 1 else 0) 0 0 0x8b)
  unfolding mov_reg_mem mov8_reg_mem mov16_reg_mem
  load-Encodes = (
    emit_mem_op-Encodes h 0x8b (omega arith) refl,
    emit_mem_op_0f-Encodes h 0xb6 (omega arith) refl,
    emit_mem_op_0f-Encodes h 0xb7 (omega arith) refl,
    mov32_reg_mem-Encodes h,
  )

  -- Let the names resolve and the displacement fit 32 bits. Each of the four stores returns and only appends
  -- bytes; the processor reads these as the store of its width to [base + index * scale + disp] from the
  -- register, and the byte store is from the low byte of the register with that number. An index rsp is
  -- read as no index.
  pub store-Encodes :
      Encodes (mov_mem_reg base disp reg index scale) (access h 0 1 1 0 0x89)
      × Encodes
          (mov8_mem_reg base disp reg index scale)
          (access h 0 (if extended_byte h then 1 else 0) 0 0 0x88)
      × (byte_register (if extended_byte h then 1 else 0) r ≡ low r)
      × Encodes (mov16_mem_reg base disp reg index scale) (access h 0x66 1 0 0 0x89)
      × Encodes (mov32_mem_reg base disp reg index scale) (access h 0 1 0 0 0x89)
  unfolding mov_mem_reg mov8_mem_reg mov16_mem_reg mov32_mem_reg byte_register
  store-Encodes = (
    emit_mem_op-Encodes h 0x89 (omega arith) refl,
    store8-Encodes h 0x88 (omega arith) refl refl refl,
    ground arith,
    store16-Encodes h 0x89 (omega arith) refl,
    store32-Encodes h 0x89 (omega arith) refl,
  )

-- ===== src/Lib.antt =====
-- The back end of the ACLM compiler: the syntax tree of ACLM/ast_nodes.py, the code generator of
-- ACLM/codegen.py, the x86-64 encoder of ACLM/x64enc.py, the register names of ACLM/regs.py and the ELF
-- writer of ACLM/elfwriter.py.
--
-- `CodeGenerator.generate` lays out the structs and the data of a program, emits its statements one after the
-- other, with the functions last, links the code, checks the asserts of the program and hands the code and the
-- data to the ELF writer. For a statement it resolves the register names with `resolve`, calls one method of
-- `Assembler` for each instruction, and marks jump targets with `label`; `link` patches the fixups.
--
-- Ast          the classes of ACLM/ast_nodes.py: Ast/Expr the operands, Ast/{Program,Cpu,Isa,System,Kernel}
--              a record for each statement, Ast/Stmt the statements and programs.
-- Codegen      the class `CodeGenerator`: its attributes as a record and its methods as state passing that
--              may raise (`Gen`). A method keeps its Python name, without a leading underscore.
--              Codegen/Eval has `_eval`, Codegen/{Memory,Arith,Locks,Functions,Signals,Blocks,Wire,Cells,
--              Net,Threads} and Codegen/Kernel/ the handlers, Codegen/Basic and Codegen/Isa the branches of
--              `_emit` that have no handler of their own, Codegen/Emit `_emit`, Codegen/Data the passes over
--              structs and data, Codegen/Generate `generate` and `_run_asserts`.
--              A call of a method of the assembler is a value of Encoder/Call, so that what a handler does
--              is a list of calls: Codegen/Traced and Codegen/Called find it, Codegen/Linked composes it
--              with the linker. Codegen/Machine is what the processor does with the calls of `_eval`.
--              Codegen/LinkTable is about the offsets that a program is linked with, Codegen/Asserts and
--              Codegen/Images about the asserts and the image, Codegen/Layout about local variables,
--              Codegen/Stored and Codegen/DataLayout about data.
--              The field `called` of the record is a history that the source has not: the calls of the
--              assembler's methods, in order, that theorems speak of; no method reads it.
-- Encoder      the functions `_u8` ... `modrm` and the class `Assembler` of ACLM/x64enc.py: its state as a
--              record (code, labels, relocs, deterministic) and its methods as state passing that may raise.
--              A method keeps its Python name, without a leading underscore. Encoder/Move has the moves,
--              Encoder/Memory the operands [base + index * scale + disp32] and `lea`, Encoder/Disp8 the
--              forms with a disp8 of their own, Encoder/Conditions the three condition tables, and
--              Encoder/{Arith,Shift,BitOps,Vex,Flow,System,Fpu} the other integer, BMI and x87 methods,
--              Encoder/Sse the SSE methods, Encoder/Avx the AVX methods. Encoder/Call has a constructor for
--              each method that the code generator calls, and Encoder/Program runs a list of such calls.
-- X86          what the processor does with the bytes, written from the architecture's manual and not
--              from the code: X86 decodes one instruction (prefixes, REX, opcode maps, ModRM, SIB,
--              displacement), X86/Immediate the immediate loads, X86/Flags the flags after `cmp` and the
--              sixteen conditions.
-- Regs         `resolve`, `is_reg_name`, `is_partial32` and the tables of ACLM/regs.py.
-- Elf          `build_elf64_exe`, `build_elf64_exe_wx`, `build_elf32_multiboot`,
--              `wx_code_data_file_offsets` and the Multiboot header of ACLM/elfwriter.py.
-- Prelude      shared lemmas; dictionaries as association lists, integers as `pos` and `negsuc`, texts.
-- Examples     the theorems at concrete inputs.
--
-- How the code is read. A byte is a number below 256 and `bytes` a list of them; `x & m` for a mask of low
-- bits is `x % (m + 1)`, and `|` of numbers is `bit_or`. A Python int argument is a ℤ, or a ℕ where the
-- code only passes register numbers, opcodes and offsets. A raised exception is a value of `Error`, and
-- the assembler is dropped with it, as the compiler ends there. `struct.error` of `struct.pack` is `none`.
-- `str.lower` is written for ASCII letters; no name with another letter lowers to a register name. The loop
-- that pads a file runs on the fuel `end`, which is at least the number of bytes that it appends. `_u16`
-- has no definition in ACLM/x64enc.py; the two methods that call it raise `name_error`.
--
-- In Codegen the attributes that a handler sets once (`_irq0_emitted` and the like) are the list
-- `emitted`; a method that the source looks up by name (`getattr`) is found in a table of the names that the
-- parser produces, and another name raises; `_teach_map` holds no class names. `Fault` tells the exceptions
-- apart by kind, not by their text. `generate` returns an `Image`, which names the writer that is called and
-- what it gets. The fuel of `decimal` is the number itself, which has at most as many digits, or is 0.
-- In Codegen/Machine a word is a number below 2 ^ 64, the memory at rbp and the addresses of labels are
-- functions that stay as they are, and the stack is a list of words.
--
-- Not modelled: the lexer, the parser and the driver; the boot code of ACLM/kernel_boot.py and with it the
-- bytes of a kernel image; the warnings of ACLM/strict.py; the debug and symbol tables of the ELF writer;
-- the listing of the code generator (`_build_listing`, `_teach_mnemonic`) and the attributes that only it
-- reads. Of the encoder's methods, those of Encoder/{Arith,Shift,BitOps,Flow,System,Fpu,Vex,Disp8,Sse,Avx} that neither
-- the tables of Encoder/Registers nor Encoder/Vex/Decode name are modelled without a theorem about their
-- bytes; what the handlers of statements compute has a semantics for `_eval` only.
pub mod Prelude
pub mod Encoder
pub mod X86
pub mod Regs
pub mod Elf
pub mod Ast
pub mod Codegen
pub mod Examples

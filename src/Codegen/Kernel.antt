-- ===== src/Codegen/Kernel.antt =====
-- ACLM/codegen.py: the statements of a freestanding kernel.
pub mod Serial
pub mod Heap
pub mod Interrupts
pub mod Ramfs
pub mod Syscalls
pub mod Dma
pub mod Context

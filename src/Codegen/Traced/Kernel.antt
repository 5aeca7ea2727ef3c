-- ===== src/Codegen/Traced/Kernel.antt =====
-- The handlers of a freestanding kernel push and pop in balance.
pub mod Serial
pub mod Heap
pub mod Interrupts
pub mod Ramfs
pub mod Syscalls
pub mod Dma
pub mod Context

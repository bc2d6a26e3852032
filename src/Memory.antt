-- ===== src/Memory.antt =====
-- src/memory: the physical frame allocator.
pub mod Address
pub mod Frame
pub mod PageTable
pub mod Mapper
pub mod Manager
pub mod UserHeap

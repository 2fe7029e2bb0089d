-- ===== src/MemoryPool.antt =====
-- MemoryPoolInternalClasses.h: how the items of a memory pool are laid out in memory and checked.
pub mod Bytes
pub mod Strategy
pub mod FreeItem
pub mod AllocatedItem
pub mod Unchecked
pub mod Reuse
pub mod Tests

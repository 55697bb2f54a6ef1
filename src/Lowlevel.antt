-- ===== src/Lowlevel.antt =====
-- src/lowlevel.rs: stacks, the allocator over a stack, and the fork itself.
pub mod Stack
pub mod Alloc
pub mod Fork

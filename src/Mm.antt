-- ===== src/Mm.antt =====
-- cp/mm: guest storage access, address spaces, the page allocator and the slab allocator.
pub mod Dat
pub mod Tables
pub mod Buddy
pub mod Slab

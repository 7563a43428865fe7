-- ===== src/Mm.antt =====
-- include/mm_address.h, mm.c: the map of physical frames, and the page tables.
pub mod Frames
pub mod Paging

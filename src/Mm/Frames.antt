-- ===== src/Mm/Frames.antt =====
-- mm.c: the byte map of physical frames, `phys_mem`.
pub mod Alloc
pub mod Scan
use zeos_soa.Base.{
  ℕ, zero, suc, ◌+◌, Bool, true, false, ◌&&◌, ◌==◌, ltb, if◌then◌else◌, neg, update,
}

abbrev pub total_pages : ℕ
total_pages = 1024

abbrev pub num_pag_kernel : ℕ
num_pag_kernel = 256

abbrev pub free_mark : ℕ
free_mark = 0

abbrev pub used_mark : ℕ
used_mark = 1

-- `Byte phys_mem[TOTAL_PAGES]`.
abbrev pub PhysMem : Type 0
PhysMem = ℕ → ℕ

-- One `for` loop of `init_frames`, with its rounds left.
unfoldable pub mark_loop : ℕ → ℕ → ℕ → PhysMem → PhysMem
mark_loop zero i v m = m
mark_loop (suc n) i v m = mark_loop n (i + 1) v (update m i v)

unfoldable pub init_frames : PhysMem → PhysMem
init_frames m = mark_loop num_pag_kernel 0 used_mark (mark_loop total_pages 0 free_mark m)

-- The loop of `alloc_frame` goes up in steps of two: from 256 there are 384 rounds to 1024.
unfoldable pub alloc_loop : ℕ → ℕ → PhysMem → ℕ × PhysMem
alloc_loop zero i m = (neg 1, m)
alloc_loop (suc n) i m = elim (m i == free_mark) [
  | true ↦ (i, update m i used_mark)
  | false ↦ alloc_loop n (i + 2) m
]

abbrev pub alloc_rounds : ℕ
alloc_rounds = 384

unfoldable pub alloc_frame : PhysMem → ℕ × PhysMem
alloc_frame m = alloc_loop alloc_rounds num_pag_kernel m

unfoldable pub free_frame : PhysMem → ℕ → PhysMem
free_frame m frame =
    if ltb num_pag_kernel frame && ltb frame total_pages then update m frame free_mark else m

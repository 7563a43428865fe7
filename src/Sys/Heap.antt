-- ===== src/Sys/Heap.antt =====
-- sys.c: `sys_sbrk`.
pub mod Pointer
pub mod Pages
pub mod Rollback
pub mod Exhausted
pub mod Shrink
use zeos_soa.Base.{
  ℕ, zero, suc, ◌+◌, ◌-◌, ◌*◌, ◌/◌, ◌%◌, Bool, true, false, ◌==◌, ltb, ◌&&◌, if◌then◌else◌, neg,
  is_neg, add32, sub32,
}
use zeos_soa.Mm.Frames.{total_pages, num_pag_kernel, alloc_frame, free_frame}
use zeos_soa.Mm.Paging.{
  page_size, num_pag_code, num_pag_data, data_end, init_heap, set_ss_pag, del_ss_pag, get_frame,
}
use zeos_soa.Kernel.{Kernel, current, set_task, get_pt}

abbrev pub heap_pointer : Kernel → ℕ → ℕ
heap_pointer k c = (k.task c).heap_pointer_proc

abbrev pub set_heap_pointer : Kernel → (c v : ℕ) → Kernel
set_heap_pointer k c v = set_task k c (record (k.task c) { heap_pointer_proc = v })

-- `free_frame(get_frame(PT, page)); del_ss_pag(PT, page);`
abbrev pub give_back : Kernel → (pt page : ℕ) → Kernel
give_back k pt page = record k {
  phys_mem = free_frame k.phys_mem (get_frame k.page_mem pt page);
  page_mem = del_ss_pag k.page_mem pt page;
}

-- Out of frames: back to the old pointer, page by page.
unfoldable pub rollback_loop : ℕ → (c pt old : ℕ) → Kernel → Kernel
rollback_loop zero c pt old k = k
rollback_loop (suc n) c pt old k = elim (ltb old (heap_pointer k c)) [
  | true ↦
      let k' = set_heap_pointer k c (sub32 (heap_pointer k c) page_size) in
      rollback_loop n c pt old (give_back k' pt (heap_pointer k' c / page_size))
  | false ↦ k
]

-- The heap of 32-bit pages has at most this many pages, which bounds the rounds of each loop.
abbrev pub heap_fuel : ℕ
heap_fuel = 1048577

-- The loop that grows the heap; `false` when it ran out of frames and rolled back.
unfoldable pub grow_loop : ℕ → (c pt old new : ℕ) → Kernel → Bool × Kernel
grow_loop zero c pt old new k = (true, k)
grow_loop (suc n) c pt old new k = elim (ltb (heap_pointer k c) new) [
  | true ↦
      let hp = heap_pointer k c in
      let (f, phys) = alloc_frame k.phys_mem in
      let mapped = record k {
        phys_mem = phys;
        page_mem = set_ss_pag k.page_mem pt (hp / page_size) f;
      } in
      let start = hp % page_size == 0 in
      elim (start) [
        | true ↦ elim (f == neg 1) [
          | true ↦ (false, rollback_loop heap_fuel c pt old (record k { phys_mem = phys }))
          | false ↦ grow_loop n c pt old new (set_heap_pointer mapped c (add32 hp page_size))
        ]
        | false ↦ grow_loop n c pt old new (set_heap_pointer k c (add32 hp page_size))
      ]
  | false ↦ (true, k)
]

-- The order of the source: the mapping goes first, so `get_frame` reads a cleared entry.
abbrev pub drop_page : Kernel → (pt page : ℕ) → Kernel
drop_page k pt page =
    let pages = del_ss_pag k.page_mem pt page in
    record k { page_mem = pages; phys_mem = free_frame k.phys_mem (get_frame pages pt page) }

unfoldable pub shrink_loop : ℕ → (c pt new : ℕ) → Kernel → Kernel
shrink_loop zero c pt new k = k
shrink_loop (suc n) c pt new k = elim (ltb new (heap_pointer k c)) [
  | true ↦
      let hp = heap_pointer k c in
      let k' =
        if hp % page_size == 0 && ltb data_end hp then drop_page k pt (hp / page_size) else k in
      shrink_loop n c pt new (set_heap_pointer k' c (sub32 hp page_size))
  | false ↦ k
]

-- Pages that a size needs, and the limit on a process's logical pages.
abbrev pub pages_needed : ℕ → ℕ
pages_needed size = (size + page_size - 1) / page_size

abbrev pub too_many_pages : Kernel → (c size : ℕ) → Bool
too_many_pages k c size = ltb total_pages (
    num_pag_code
    + 2 * num_pag_data
    + num_pag_kernel
    + pages_needed size
    + (heap_pointer k c - (k.task c).heap_start_proc) / page_size)

-- `size` is a signed `int`; the pointer that is returned is 0 on failure.
unfoldable pub sys_sbrk : (size : ℕ) → Kernel → ℕ × Kernel
sys_sbrk size k =
    let c = current k in
    let old = heap_pointer k c in
    let new = add32 old size in
    let pt = get_pt k c in
    if size == 0
    then (old, k)
    else if ltb new init_heap
    then (0, k)
    else if is_neg size
    then (old, shrink_loop heap_fuel c pt new k)
    else if too_many_pages k c size
    then (0, k)
    else let (done, k') = grow_loop heap_fuel c pt old new k in (if done then old else 0, k')

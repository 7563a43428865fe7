-- ===== src/Sys/Heap/Pages.antt =====
-- The pages that `sys_sbrk` maps when it grows the heap.
use zeos_soa.Base.{
  ℕ, zero, suc, ◌+◌, ◌*◌, ◌/◌, ◌%◌, ◌^◌, ◌≤◌, ◌<◌, ◌≡◌, ◌≢◌, refl, ap, ◌∙◌, Bool, true, false, ◌==◌,
  ltb, if◌then◌else◌, neg, add32, update, arith,
}
use zeos_soa.Mm.Frames.{used_mark, alloc_frame}
use zeos_soa.Mm.Paging.{page_size, pag_log_init_data, init_heap, set_ss_pag}
use zeos_soa.Kernel.{Kernel, current, get_pt}
use zeos_soa.Sys.Heap.{
  heap_pointer, set_heap_pointer, grow_loop, heap_fuel, pages_needed, too_many_pages, sys_sbrk,
}
use zeos_soa.Sys.Heap.Pointer.{sys_sbrk-eq}
use zeos_soa.Sys.Fork.Frames.{
  FreeFrames, FreeFrames-without, without, next_frame, OwnFrames, one_frame, frame_step, no_frames,
}

-- The address of the page with index `i` from the first data page on.
abbrev pub page_address : ℕ → ℕ
page_address i = page_size * (pag_log_init_data + i)

-- The memory of `k'` in the state `k`.
abbrev pub with_pages : (k k' : Kernel) → Kernel
with_pages k k' = record k { phys_mem = k'.phys_mem; page_mem = k'.page_mem }

grow_loop-done :
    (fuel c pt old new : ℕ) (k : Kernel)
    → new ≤ heap_pointer k c
    → grow_loop fuel c pt old new k ≡ (true, k)
unfolding grow_loop
grow_loop-done zero c pt old new k h = refl
grow_loop-done (suc fuel) c pt old new k h = ground arith

-- One round at a page that a frame is found for.
pub grow_loop-step :
    (fuel c pt old new pag : ℕ) (k : Kernel)
    → heap_pointer k c ≡ page_address pag
    → page_address pag < new
    → page_address (pag + 1) < 2 ^ 32
    → (alloc_frame k.phys_mem).0 ≢ neg 1
    → (alloc_frame k.phys_mem).1 ≡ update k.phys_mem (alloc_frame k.phys_mem).0 used_mark
    → grow_loop (suc fuel) c pt old new k
      ≡ grow_loop fuel c pt old new (
          set_heap_pointer
            (one_frame pt pag (alloc_frame k.phys_mem).0 k)
            c
            (page_address (pag + 1)))
unfolding grow_loop set_ss_pag
grow_loop-step fuel c pt old new pag k e l small found marked =
    let more : ltb (heap_pointer k c) new ≡ true = ground (arith, e) in
    let starts : (heap_pointer k c % page_size == 0) ≡ true = ground (arith, e) in
    let some_frame : ((alloc_frame k.phys_mem).0 == neg 1) ≡ false = ground arith in
    let page : heap_pointer k c / page_size ≡ pag_log_init_data + pag = omega (arith, e) in
    let next : add32 (heap_pointer k c) page_size ≡ page_address (pag + 1) = omega (arith, e) in
    rw (more, starts, some_frame, grow_loop, page, next, marked) refl

-- The heap pointer has no part in which frames the pages have.
pub OwnFrames-set_heap_pointer :
    (n pt pag c v : ℕ) (k k' : Kernel)
    → OwnFrames n pt pag (set_heap_pointer k c v) (with_pages (set_heap_pointer k c v) k')
    → OwnFrames n pt pag k (with_pages k k')
OwnFrames-set_heap_pointer n pt pag c v k k' o = record {
  user = o.user;
  was_free = o.was_free;
  is_used = o.is_used;
  distinct = o.distinct;
  mapped = o.mapped;
  others = o.others;
  kept = o.kept;
  other_marks = o.other_marks;
  rest = refl;
}

-- The loop maps each of the `n` pages that are missing to a frame of its own.
grow_loop-OwnFrames :
    (n fuel c pt old new pag : ℕ) (k : Kernel) (g : ℕ → ℕ)
    → n ≤ fuel
    → heap_pointer k c ≡ page_address pag
    → new ≤ page_address (pag + n)
    → page_address (pag + n) < new + page_size
    → page_address (pag + n) < 2 ^ 32
    → FreeFrames n k.phys_mem g
    → (k' : Kernel) × (grow_loop fuel c pt old new k ≡ (true, k'))
      × OwnFrames n pt pag k (with_pages k k')
      × (heap_pointer k' c ≡ page_address (pag + n))
grow_loop-OwnFrames zero fuel c pt old new pag k g h e lo hi small free =
    (k, grow_loop-done fuel c pt old new k (omega (arith, e)), no_frames pt pag k, e ∙ omega arith)
grow_loop-OwnFrames (suc n) zero c pt old new pag k g h e lo hi small free = absurd (omega arith)
grow_loop-OwnFrames (suc n) (suc fuel) c pt old new pag k g h e lo hi small free =
    let a = next_frame n k.phys_mem g free in
    let f = (alloc_frame k.phys_mem).0 in
    let k1 = set_heap_pointer (one_frame pt pag f k) c (page_address (pag + 1)) in
    let moved : heap_pointer k1 c ≡ page_address (pag + 1) = ground arith in
    let some_frame : f ≢ neg 1 = omega (arith, a.user) in
    let (k', run, own, up) =
      grow_loop-OwnFrames n fuel c pt old new (pag + 1) k1 (without n f g) (omega arith) moved
        (omega arith) (omega arith) (omega arith) (FreeFrames-without n f k.phys_mem g free) in
    (
      k',
      grow_loop-step fuel c pt old new pag k e (omega arith) (omega arith) some_frame a.marked
          ∙ run,
      frame_step n pt pag f k (with_pages k k') a.user a.was_free (
          OwnFrames-set_heap_pointer n pt (pag + 1) c (page_address (pag + 1))
            (one_frame pt pag f k) k' own),
      up ∙ omega arith,
    )

-- `sys_sbrk` of a positive size within the limits, from a heap pointer at the start of a page, while
-- there are frames for the pages that the size needs: it returns the old pointer, which is now that
-- many pages further on, and each of these pages is mapped, writable and for user mode, to a user
-- frame of its own that was free and is marked used; no other page table entry has changed and no
-- other frame is marked.
pub sys_sbrk-OwnFrames :
    (k : Kernel) (size pag : ℕ) (g : ℕ → ℕ)
    → 0 < size
    → size < 2 ^ 31
    → heap_pointer k (current k) ≡ page_address pag
    → init_heap ≤ page_address pag
    → page_address (pag + pages_needed size) < 2 ^ 32
    → too_many_pages k (current k) size ≡ false
    → FreeFrames (pages_needed size) k.phys_mem g
    → (k' : Kernel) × (sys_sbrk size k ≡ (heap_pointer k (current k), k'))
      × OwnFrames (pages_needed size) (get_pt k (current k)) pag k (with_pages k k')
      × (heap_pointer k' (current k) ≡ page_address (pag + pages_needed size))
sys_sbrk-OwnFrames k size pag g pos small at above room few free =
    let c = current k in
    let old = heap_pointer k c in
    let new : add32 old size ≡ old + size = omega (arith, at, room) in
    let (k', run, own, up) =
      grow_loop-OwnFrames (pages_needed size) heap_fuel c (get_pt k c) old (old + size) pag k g
        (omega arith) at (omega (arith, at)) (omega (arith, at)) room free in
    (
      k',
      sys_sbrk-eq k size pos small (omega (arith, at)) new few
          ∙ ap (λ (r : Bool × Kernel). ((if r.0 then old else 0), r.1)) run,
      own,
      up,
    )

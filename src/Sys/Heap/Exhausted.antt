-- ===== src/Sys/Heap/Exhausted.antt =====
-- `sys_sbrk` when there are not enough frames.
use mathlib.Core.Path.{fun_ext}
use zeos_soa.Base.{
  ℕ, zero, suc, ◌+◌, ◌%◌, ◌^◌, ◌≤◌, ◌<◌, ◌≡◌, ◌≢◌, refl, sym, ap, ◌∙◌, ◌⊎◌, inl, inr, Bool, true,
  false, ◌==◌, ltb, if◌then◌else◌, neg, add32, arith,
}
use zeos_soa.Mm.Frames.{used_mark, num_pag_kernel, alloc_frame}
use zeos_soa.Mm.Frames.Alloc.{Exhausted, alloc_frame-cases}
use zeos_soa.Mm.Paging.{page_size, zero_entry, init_heap}
use zeos_soa.Kernel.{Kernel, current, get_pt}
use zeos_soa.Sys.Heap.{
  heap_pointer, set_heap_pointer, rollback_loop, grow_loop, heap_fuel, pages_needed, too_many_pages,
  sys_sbrk,
}
use zeos_soa.Sys.Heap.Pointer.{sys_sbrk-eq}
use zeos_soa.Sys.Heap.Pages.{page_address, with_pages, grow_loop-step, OwnFrames-set_heap_pointer}
use zeos_soa.Sys.Heap.Rollback.{rollback_loop-OwnFrames, with_first, FreeFrames-with_first}
use zeos_soa.Sys.Fork.Frames.{FreeFrames, OwnFrames, data_entry, one_frame, frame_step, no_frames}

-- The round that finds no frame.
grow_loop-full :
    (fuel c pt old new pag : ℕ) (k : Kernel)
    → heap_pointer k c ≡ page_address pag
    → page_address pag < new
    → Exhausted k.phys_mem (alloc_frame k.phys_mem).0 (alloc_frame k.phys_mem).1
    → grow_loop (suc fuel) c pt old new k ≡ (false, rollback_loop heap_fuel c pt old k)
unfolding grow_loop
grow_loop-full fuel c pt old new pag k e l none =
    let more : ltb (heap_pointer k c) new ≡ true = ground (arith, e) in
    let starts : (heap_pointer k c % page_size == 0) ≡ true = ground (arith, e) in
    let full : ((alloc_frame k.phys_mem).0 == neg 1) ≡ true = ground (arith, none.minus_one) in
    rw (more, starts, full, grow_loop, none.same) refl

-- The loop that needs `n` pages gets frames for all of them only if there are that many; else it
-- rolls back what it mapped.
grow_loop-cases :
    (n fuel c pt old new pag : ℕ) (k : Kernel)
    → n ≤ fuel
    → heap_pointer k c ≡ page_address pag
    → new ≤ page_address (pag + n)
    → page_address (pag + n) < new + page_size
    → page_address (pag + n) < 2 ^ 32
    → ((g : ℕ → ℕ) × FreeFrames n k.phys_mem g)
      ⊎ ((i : ℕ) × (k' : Kernel) × (grow_loop fuel c pt old new k
            ≡ (false, rollback_loop heap_fuel c pt old k'))
          × (i ≤ n)
          × OwnFrames i pt pag k (with_pages k k')
          × (heap_pointer k' c ≡ page_address (pag + i)))
grow_loop-cases zero fuel c pt old new pag k h e lo hi small = inl (
  (λ i. 0),
  record {
    user = λ i l. absurd (omega arith);
    free = λ i l. absurd (omega arith);
    distinct = λ i j l u. absurd (omega arith);
  },
)
grow_loop-cases (suc n) zero c pt old new pag k h e lo hi small = absurd (omega arith)
grow_loop-cases (suc n) (suc fuel) c pt old new pag k h e lo hi small =
    let f = (alloc_frame k.phys_mem).0 in
    let k1 = set_heap_pointer (one_frame pt pag f k) c (page_address (pag + 1)) in
    let moved : heap_pointer k1 c ≡ page_address (pag + 1) = ground arith in
    elim (alloc_frame-cases k.phys_mem) [
      | inr none ↦ inr (
        0,
        k,
        grow_loop-full fuel c pt old new pag k e (omega arith) none,
        omega arith,
        no_frames pt pag k,
        e ∙ omega arith,
      )
      | inl a ↦
          let some_frame : f ≢ neg 1 = omega (arith, a.user) in
          elim (grow_loop-cases n fuel c pt old new (pag + 1) k1 (omega arith) moved (omega arith)
            (omega arith) (omega arith)) [
              | inl (g, free) ↦
                  inl (
                    with_first n f g,
                    FreeFrames-with_first n f k.phys_mem g a.user a.was_free free,
                  )
              | inr (i, k', run, le, own, up) ↦ inr (
                suc i,
                k',
                grow_loop-step fuel c pt old new pag k e (omega arith) (omega arith) some_frame
                      a.marked
                    ∙ run,
                omega arith,
                frame_step i pt pag f k (with_pages k k') a.user a.was_free (
                    OwnFrames-set_heap_pointer i pt (pag + 1) c (page_address (pag + 1))
                      (one_frame pt pag f k) k' own),
                up ∙ omega arith,
              )
            ]
    ]

-- `sys_sbrk` of a positive size within the limits, from a heap pointer at the start of a page, that
-- needs more pages than there are free frames: it returns 0 and leaves the marks of all frames, all
-- page table entries and the heap pointer as they were. The entries of the pages that it needs were
-- clear, and frame 256, which is never given back, was in use.
pub sys_sbrk_undoes :
    (k : Kernel) (size pag : ℕ)
    → 0 < size
    → size < 2 ^ 31
    → heap_pointer k (current k) ≡ page_address pag
    → init_heap ≤ page_address pag
    → page_address (pag + pages_needed size) < 2 ^ 32
    → too_many_pages k (current k) size ≡ false
    → k.phys_mem num_pag_kernel ≡ used_mark
    → ((j : ℕ)
        → pag ≤ j
        → j < pag + pages_needed size
        → k.page_mem (data_entry (get_pt k (current k)) j) ≡ zero_entry)
    → ((g : ℕ → ℕ) → FreeFrames (pages_needed size) k.phys_mem g → ⊥)
    → ((sys_sbrk size k).0 ≡ 0)
      × ((sys_sbrk size k).1.phys_mem ≡ k.phys_mem)
      × ((sys_sbrk size k).1.page_mem ≡ k.page_mem)
      × (heap_pointer (sys_sbrk size k).1 (current k) ≡ heap_pointer k (current k))
sys_sbrk_undoes k size pag pos small at above room few low clear short =
    let c = current k in
    let pt = get_pt k c in
    let old = heap_pointer k c in
    let new : add32 old size ≡ old + size = omega (arith, at, room) in
    let eq = sys_sbrk-eq k size pos small (omega (arith, at)) new few in
    elim (grow_loop-cases (pages_needed size) heap_fuel c pt old (old + size) pag k (omega arith) at
      (omega (arith, at)) (omega (arith, at)) room) [
        | inl (g, free) ↦ absurd (short g free)
        | inr (i, k', run, le, own, up) ↦
            let (k'', back, none, down) =
              rollback_loop-OwnFrames i heap_fuel c pt pag k k' (omega arith) up (omega arith) low
                (λ j l u. clear j l (omega arith)) own in
            let start = ap (λ o. rollback_loop heap_fuel c pt o k') at in
            let end : sys_sbrk size k ≡ (0, k'') =
              eq
              ∙ ap (λ (r : Bool × Kernel). ((if r.0 then old else 0), r.1))
                  (run ∙ ap (λ q. (false, q)) (start ∙ back)) in
            rw (end) (
              refl,
              fun_ext (λ f. none.other_marks f (λ j l u. absurd (omega arith))),
              fun_ext (λ a. none.others a (λ j l u. absurd (omega arith))),
              down ∙ sym at,
            )
      ]

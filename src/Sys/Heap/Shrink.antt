-- ===== src/Sys/Heap/Shrink.antt =====
-- `sys_sbrk` of a negative size, sys.c.
use mathlib.Core.Path.{fun_ext}
use native.Mathlib.Decide.{ℕ_discrete}
use zeos_soa.Base.{
  ℕ, zero, suc, ◌+◌, ◌-◌, ◌*◌, ◌/◌, ◌%◌, ◌^◌, ◌≤◌, ◌<◌, ◌≡◌, ◌≢◌, refl, sym, ap, ◌∙◌, true, false,
  ◌==◌, ltb, ◌&&◌, is_neg, neg, add32, sub32, update, arith,
}
use zeos_soa.Mm.Frames.{free_frame}
use zeos_soa.Mm.Paging.{page_size, data_end, init_heap, zero_entry, entry_at, del_ss_pag, get_frame}
use zeos_soa.Kernel.{Kernel, current, get_pt}
use zeos_soa.Sys.Heap.{
  heap_pointer, set_heap_pointer, drop_page, shrink_loop, heap_fuel, pages_needed, sys_sbrk,
}

-- The table entry is read when it is clear already: its frame is 0, which `free_frame` leaves alone.
drop_page-eq :
    (k : Kernel) (pt page : ℕ)
    → drop_page k pt page ≡ record k { page_mem = update k.page_mem (entry_at pt page) zero_entry }
unfolding del_ss_pag get_frame free_frame
drop_page-eq k pt page = ground arith

-- From the page `p` of the heap pointer down, `n` pages have lost their entries and the heap
-- pointer has moved to the page `p - n`. Nothing else has changed; above all no frame is free that
-- was not.
pub record Shrunk (n c pt p : ℕ) (k k' : Kernel) : Type 0 where
  pub dropped : (j : ℕ) → j < n → k'.page_mem (entry_at pt (p - j)) ≡ zero_entry
  pub kept : (a : ℕ) → ((j : ℕ) → j < n → a ≢ entry_at pt (p - j)) → k'.page_mem a ≡ k.page_mem a
  pub rest : k' ≡ set_heap_pointer (record k { page_mem = k'.page_mem }) c (page_size * (p - n))

-- One round at the page `p`.
abbrev lowered : (c pt p : ℕ) → Kernel → Kernel
lowered c pt p k =
    set_heap_pointer (record k { page_mem = update k.page_mem (entry_at pt p) zero_entry }) c
      (page_size * (p - 1))

shrink_loop-step :
    (fuel c pt new p : ℕ) (k : Kernel)
    → heap_pointer k c ≡ page_size * p
    → page_size * p < 2 ^ 32
    → new < page_size * p
    → data_end ≤ new
    → shrink_loop (suc fuel) c pt new k ≡ shrink_loop fuel c pt new (lowered c pt p k)
unfolding shrink_loop
shrink_loop-step fuel c pt new p k e small more low =
    let above : ltb new (heap_pointer k c) ≡ true = ground (arith, e) in
    let starts : (heap_pointer k c % page_size == 0 && ltb data_end (heap_pointer k c)) ≡ true =
      ground (arith, e) in
    let page : heap_pointer k c / page_size ≡ p = omega (arith, e) in
    let next : sub32 (heap_pointer k c) page_size ≡ page_size * (p - 1) = omega (arith, e) in
    let drop = drop_page-eq k pt p in
    rw (above, shrink_loop, starts, page, next)
      (ap (λ (q : Kernel). shrink_loop fuel c pt new (set_heap_pointer q c (page_size * (p - 1))))
        drop)

shrink_loop-done :
    (fuel c pt new : ℕ) (k : Kernel) → heap_pointer k c ≤ new → shrink_loop fuel c pt new k ≡ k
unfolding shrink_loop
shrink_loop-done zero c pt new k h = refl
shrink_loop-done (suc fuel) c pt new k h = ground arith

set_heap_pointer-set_heap_pointer :
    (k : Kernel) (c v w : ℕ)
    → set_heap_pointer (set_heap_pointer k c v) c w ≡ set_heap_pointer k c w
set_heap_pointer-set_heap_pointer k c v w =
    ap (λ t. record k { task = t }) (fun_ext λ a. ground arith)

Shrunk-step :
    (n c pt p : ℕ) (k k' : Kernel)
    → suc n ≤ p
    → Shrunk n c pt (p - 1) (lowered c pt p k) k'
    → Shrunk (suc n) c pt p k k'
Shrunk-step n c pt p k k' le s = record {
  dropped = λ j h. elim (ℕ_discrete j 0) [
    | yes top ↦
        let here : entry_at pt (p - j) ≡ entry_at pt p = omega arith in
        let apart = s.kept (entry_at pt p) (λ i hi e. omega (arith, le, hi, e)) in
        ap k'.page_mem here ∙ apart ∙ ground arith
    | no below ↦
        let same : entry_at pt (p - j) ≡ entry_at pt (p - 1 - (j - 1)) = omega (arith, below) in
        ap k'.page_mem same ∙ s.dropped (j - 1) (omega (arith, h, below))
  ];
  kept = λ a other.
      let apart : a ≢ entry_at pt p = λ e. other 0 (omega arith) (omega (arith, e)) in
      s.kept a (λ j h e. other (j + 1) (omega (arith, h)) (e ∙ omega (arith, h)))
      ∙ ground (arith, apart);
  rest =
      s.rest
      ∙ set_heap_pointer-set_heap_pointer (record k { page_mem = k'.page_mem }) c
          (page_size * (p - 1)) (page_size * (p - 1 - n))
      ∙ ap (λ v. set_heap_pointer (record k { page_mem = k'.page_mem }) c v) (omega arith);
}

set_heap_pointer-same : (k : Kernel) (c v : ℕ) → heap_pointer k c ≡ v → set_heap_pointer k c v ≡ k
set_heap_pointer-same k c v e =
    ap (set_heap_pointer k c) (sym e)
    ∙ ap (λ t. record k { task = t })
        (fun_ext λ a. elim (ℕ_discrete a c) [
          | yes here ↦ ground (arith, ap k.task here)
          | no other ↦ ground (arith, other)
        ])

shrink_loop-Shrunk :
    (n fuel c pt new p : ℕ) (k : Kernel)
    → n ≤ fuel
    → n ≤ p
    → heap_pointer k c ≡ page_size * p
    → page_size * p < 2 ^ 32
    → page_size * (p - n) ≤ new
    → new < page_size * (p - n) + page_size
    → data_end ≤ new
    → Shrunk n c pt p k (shrink_loop fuel c pt new k)
shrink_loop-Shrunk zero fuel c pt new p k lf le e small lo hi low =
    rw (shrink_loop-done fuel c pt new k (omega (arith, e, lo))) (record {
      dropped = λ j h. absurd (omega (arith, h));
      kept = λ a other. refl;
      rest = sym (set_heap_pointer-same k c (page_size * (p - 0)) (e ∙ omega arith));
    })
shrink_loop-Shrunk (suc n) zero c pt new p k lf le e small lo hi low = absurd (omega arith)
shrink_loop-Shrunk (suc n) (suc fuel) c pt new p k lf le e small lo hi low =
    let moved : heap_pointer (lowered c pt p k) c ≡ page_size * (p - 1) = ground arith in
    rw (shrink_loop-step fuel c pt new p k e small (omega (arith, hi, le)) low) (
      Shrunk-step n c pt p k (shrink_loop fuel c pt new (lowered c pt p k)) le (
        shrink_loop-Shrunk n fuel c pt new (p - 1) (lowered c pt p k) (omega arith) (omega arith)
          moved (omega (arith, small)) (omega (arith, lo)) (omega (arith, hi, le)) low))

-- `sys_sbrk` of minus `less` bytes from a heap pointer at the start of the page `p`, while the heap
-- stays above its lowest place: it returns the old pointer and moves it down by the pages that
-- `less` needs. The pages that lose their table entries are the page of the old pointer, which lies
-- behind the heap, and those below it, so that the lowest page that was given up stays mapped; and
-- no frame at all is freed.
pub sys_sbrk-Shrunk :
    (k : Kernel) (less p : ℕ)
    → 0 < less
    → less ≤ 2 ^ 31
    → heap_pointer k (current k) ≡ page_size * p
    → page_size * p < 2 ^ 32
    → init_heap + less ≤ page_size * p
    → ((sys_sbrk (neg less) k).0 ≡ heap_pointer k (current k))
      × Shrunk (pages_needed less) (current k) (get_pt k (current k)) p k (sys_sbrk (neg less) k).1
unfolding sys_sbrk
sys_sbrk-Shrunk k less p pos small e fits above =
    let new : add32 (heap_pointer k (current k)) (neg less) ≡ page_size * p - less =
      omega (arith, e, above) in
    let a : (neg less == 0) ≡ false = ground arith in
    let b : ltb (page_size * p - less) init_heap ≡ false = ground (arith, above) in
    let minus : is_neg (neg less) ≡ true = ground arith in
    rw (new, a, b, minus)
      (
        refl,
        shrink_loop-Shrunk (pages_needed less) heap_fuel (current k) (get_pt k (current k))
            (page_size * p - less) p k (omega arith) (omega (arith, above)) e fits (omega arith)
            (omega (arith, above)) (omega (arith, above)),
      )

-- ===== src/Sys/Heap/Pointer.antt =====
-- Where `sys_sbrk` leaves the heap pointer when it grows the heap.
use zeos_soa.Base.{
  ℕ, zero, suc, ◌+◌, ◌-◌, ◌*◌, ◌/◌, ◌^◌, ◌≤◌, ◌<◌, ◌≡◌, ◌⊎◌, inl, inr, refl, Bool, true, false, ltb,
  ◌==◌, ◌%◌, Bool-cases, arith, is_neg, add32, sub32, neg, ltb→lt, if◌then◌else◌,
}
use zeos_soa.Mm.Frames.{alloc_frame}
use zeos_soa.Mm.Paging.{page_size, init_heap, set_ss_pag}
use zeos_soa.Kernel.{Kernel, current, get_pt}
use zeos_soa.Sys.Heap.{
  heap_pointer, set_heap_pointer, give_back, rollback_loop, heap_fuel, grow_loop, pages_needed,
  too_many_pages, sys_sbrk,
}

heap_pointer-set : (k : Kernel) (c v : ℕ) → heap_pointer (set_heap_pointer k c v) c ≡ v
heap_pointer-set k c v = ground arith

-- Page by page the pointer comes back to the old place.
rollback_loop-pointer :
    (n c pt old j : ℕ) (k : Kernel)
    → j ≤ n
    → heap_pointer k c ≡ old + page_size * j
    → heap_pointer k c < 2 ^ 32
    → heap_pointer (rollback_loop n c pt old k) c ≡ old
unfolding rollback_loop
rollback_loop-pointer zero c pt old j k h e small = omega (arith, e)
rollback_loop-pointer (suc n) c pt old j k h e small =
    elim (Bool-cases (ltb old (heap_pointer k c))) [
      | inl above ↦
          let l = ltb→lt old (heap_pointer k c) above in
          let k' = set_heap_pointer k c (sub32 (heap_pointer k c) page_size) in
          let v = heap_pointer-set k c (sub32 (heap_pointer k c) page_size) in
          rw (above, heap_pointer, rollback_loop)
            (rollback_loop-pointer n c pt old (j - 1)
              (give_back k' pt (heap_pointer k' c / page_size)) (omega (arith, e, l))
              (omega (arith, e, l, v)) (omega (arith, e, l, v)))
      | inr done ↦ rw (done, heap_pointer, rollback_loop) (ground (arith, e))
    ]

-- The heap pointer has gone up by `pages` pages, or is back where it was.
abbrev Grown : (r : Bool × Kernel) (c old pages : ℕ) → Type 0
Grown r c old pages =
    ((r.0 ≡ true) × (heap_pointer r.1 c ≡ old + page_size * pages))
    ⊎ ((r.0 ≡ false) × (heap_pointer r.1 c ≡ old))

pub next_page :
    (k : Kernel) (c old i : ℕ)
    → heap_pointer k c ≡ old + page_size * i
    → old + page_size * (i + 1) < 2 ^ 32
    → heap_pointer (set_heap_pointer k c (add32 (heap_pointer k c) page_size)) c
      ≡ old + page_size * (i + 1)
next_page k c old i e small = ground (arith, e)

grow_loop-pointer :
    (n c pt old size i : ℕ) (k : Kernel)
    → i ≤ pages_needed size
    → pages_needed size ≤ i + n
    → heap_pointer k c ≡ old + page_size * i
    → old + page_size * pages_needed size < 2 ^ 32
    → i < heap_fuel
    → Grown (grow_loop n c pt old (old + size) k) c old (pages_needed size)
unfolding grow_loop
grow_loop-pointer zero c pt old size i k lo hi e small few = inl (refl, omega (arith, e))
grow_loop-pointer (suc n) c pt old size i k lo hi e small few =
    elim (Bool-cases (ltb (heap_pointer k c) (old + size))) [
      | inr done ↦ rw (done, grow_loop) (inl (refl, ground (arith, e)))
      | inl more ↦
          let l = ltb→lt (heap_pointer k c) (old + size) more in
          let next = next_page k c old i e (omega (arith, e, l)) in
          elim (Bool-cases (heap_pointer k c % page_size == 0)) [
            | inr within ↦
                rw (more, within, grow_loop)
                  (grow_loop-pointer n c pt old size (i + 1)
                    (set_heap_pointer k c (add32 (heap_pointer k c) page_size))
                    (omega (arith, e, l)) (omega (arith, e, l)) next small (omega (arith, e, l)))
            | inl starts ↦ elim (Bool-cases ((alloc_frame k.phys_mem).0 == neg 1)) [
              | inl full ↦
                  rw (more, starts, full, grow_loop)
                    (inr (
                      refl,
                      rollback_loop-pointer heap_fuel c pt old i
                          (record k { phys_mem = (alloc_frame k.phys_mem).1 }) (omega arith) e
                          (omega (arith, e)),
                    ))
              | inr found ↦
                  rw (more, starts, found, grow_loop)
                    (grow_loop-pointer n c pt old size (i + 1)
                      (set_heap_pointer
                        (record k {
                          phys_mem = (alloc_frame k.phys_mem).1;
                          page_mem =
                              set_ss_pag k.page_mem pt (heap_pointer k c / page_size)
                                (alloc_frame k.phys_mem).0;
                        })
                        c (add32 (heap_pointer k c) page_size))
                      (omega (arith, e, l)) (omega (arith, e, l)) next small (omega (arith, e, l)))
            ]
          ]
    ]

pub sys_sbrk-eq :
    (k : Kernel) (size : ℕ)
    → 0 < size
    → size < 2 ^ 31
    → init_heap ≤ heap_pointer k (current k) + size
    → add32 (heap_pointer k (current k)) size ≡ heap_pointer k (current k) + size
    → too_many_pages k (current k) size ≡ false
    → let r =
        grow_loop heap_fuel
          (current k)
          (get_pt k (current k))
          (heap_pointer k (current k))
          (heap_pointer k (current k) + size)
          k in
      sys_sbrk size k ≡ ((if r.0 then heap_pointer k (current k) else 0), r.1)
unfolding sys_sbrk
sys_sbrk-eq k size pos small above new few =
    let a : (size == 0) ≡ false = ground arith in
    let b : ltb (heap_pointer k (current k) + size) init_heap ≡ false = ground arith in
    let c : is_neg size ≡ false = ground arith in rw (new, a, b, c, few)

-- `sys_sbrk` of a positive size that the limits admit: it returns the old heap pointer, which went
-- up by the pages that the size needs, or it ran out of frames, returns 0, and the heap pointer is
-- the old one. Its loops end.
pub sys_sbrk-pointer :
    (k : Kernel) (size : ℕ)
    → 0 < size
    → size < 2 ^ 31
    → init_heap ≤ heap_pointer k (current k) + size
    → heap_pointer k (current k) + page_size * pages_needed size < 2 ^ 32
    → too_many_pages k (current k) size ≡ false
    → (((sys_sbrk size k).0 ≡ heap_pointer k (current k))
        × (heap_pointer (sys_sbrk size k).1 (current k)
            ≡ heap_pointer k (current k) + page_size * pages_needed size))
      ⊎ (((sys_sbrk size k).0 ≡ 0)
          × (heap_pointer (sys_sbrk size k).1 (current k) ≡ heap_pointer k (current k)))
sys_sbrk-pointer k size pos small above room few =
    let c = current k in
    let old = heap_pointer k c in
    let new : add32 old size ≡ old + size = omega (arith, room) in
    let grown =
      grow_loop-pointer heap_fuel c (get_pt k c) old size 0 k (omega arith) (omega arith)
        (omega arith) room (omega arith) in
    rw (sys_sbrk-eq k size pos small above new few) (elim grown [
      | inl (done, up) ↦ inl (rw done refl, up)
      | inr (failed, back) ↦ inr (rw failed refl, back)
    ])

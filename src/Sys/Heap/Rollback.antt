-- ===== src/Sys/Heap/Rollback.antt =====
-- What `sys_sbrk` gives back when the frames run out.
use native.Mathlib.Decide.{ℕ_discrete}
use zeos_soa.Base.{
  ℕ, zero, suc, ◌+◌, ◌/◌, ◌^◌, ◌≤◌, ◌<◌, ◌≡◌, ◌≢◌, refl, sym, ap, subst, ◌∙◌, true, ◌==◌, ltb,
  if◌then◌else◌, sub32, update, arith,
}
use zeos_soa.Mm.Frames.{PhysMem, free_mark, used_mark, num_pag_kernel, free_frame}
use zeos_soa.Mm.Frames.Alloc.{IsUserFrame}
use zeos_soa.Mm.Paging.{
  Entry, page_size, mapping, zero_entry, pag_log_init_data, get_frame, del_ss_pag,
}
use zeos_soa.Kernel.{Kernel}
use zeos_soa.Sys.Heap.{heap_pointer, set_heap_pointer, give_back, rollback_loop}
use zeos_soa.Sys.Heap.Pages.{page_address, with_pages}
use zeos_soa.Sys.Fork.Frames.{FreeFrames, OwnFrames, data_entry}

-- The last of the pages is given back, and its entry was clear before.
module _ (i pt pag : ℕ) (k k' : Kernel) (o : OwnFrames (suc i) pt pag k k')
    (low : k.phys_mem num_pag_kernel ≡ used_mark)
    (clear : k.page_mem (data_entry pt (pag + i)) ≡ zero_entry) where
  abbrev last : ℕ
  last = get_frame k'.page_mem pt (pag_log_init_data + (pag + i))

  abbrev given : Kernel
  given = give_back k' pt (pag_log_init_data + (pag + i))

  last_free : k.phys_mem last ≡ free_mark
  unfolding get_frame
  last_free = o.was_free (pag + i) (omega arith) (omega arith)

  last_user : IsUserFrame last
  unfolding get_frame
  last_user = o.user (pag + i) (omega arith) (omega arith)

  entry_same :
      (j : ℕ)
      → pag ≤ j
      → j < pag + i
      → given.page_mem (data_entry pt j) ≡ k'.page_mem (data_entry pt j)
  unfolding del_ss_pag
  entry_same j l u = ground arith

  entry_clear : given.page_mem (data_entry pt (pag + i)) ≡ zero_entry
  unfolding del_ss_pag
  entry_clear = ground arith

  mark_same : (f : ℕ) → f ≢ last → given.phys_mem f ≡ k'.phys_mem f
  unfolding free_frame
  mark_same f ne = ground arith

  mark_freed : given.phys_mem last ≡ free_mark
  unfolding free_frame
  mark_freed = ground (arith, last_user, last_free, low)

  not_last : (j : ℕ) → pag ≤ j → j < pag + i → (k'.page_mem (data_entry pt j)).pbase_addr ≢ last
  unfolding get_frame
  not_last j l u q = o.distinct j (pag + i) l u (omega arith) (sym q)

  base_same :
      (j : ℕ)
      → pag ≤ j
      → j < pag + i
      → (given.page_mem (data_entry pt j)).pbase_addr ≡ (k'.page_mem (data_entry pt j)).pbase_addr
  base_same j l u = ap (λ (e : Entry). e.pbase_addr) (entry_same j l u)

  other_entry :
      (a : ℕ)
      → ((j : ℕ) → pag ≤ j → j < pag + i → a ≢ data_entry pt j)
      → a ≢ data_entry pt (pag + i)
      → given.page_mem a ≡ k.page_mem a
  unfolding del_ss_pag
  other_entry a ne other =
      let before : k'.page_mem a ≡ k.page_mem a = o.others a (λ j l u.
        elim (ℕ_discrete j (pag + i)) [
          | yes e ↦ λ q. other (q ∙ ap (data_entry pt) e)
          | no less ↦ ne j l (omega arith)
        ]) in
      ground (arith, before)

  other_mark :
      (f : ℕ)
      → ((j : ℕ) → pag ≤ j → j < pag + i → f ≢ (k'.page_mem (data_entry pt j)).pbase_addr)
      → f ≢ last
      → given.phys_mem f ≡ k.phys_mem f
  unfolding get_frame
  other_mark f ne other =
      mark_same f other
      ∙ o.other_marks f (λ j l u. elim (ℕ_discrete j (pag + i)) [
        | yes e ↦ λ q. other (q ∙ ap (λ x. (k'.page_mem (data_entry pt x)).pbase_addr) e)
        | no less ↦ ne j l (omega arith)
      ])

  pub given-OwnFrames : OwnFrames i pt pag k given
  given-OwnFrames = record {
    user = λ j l u. subst IsUserFrame (sym (base_same j l u)) (o.user j l (omega arith));
    was_free = λ j l u. ap k.phys_mem (base_same j l u) ∙ o.was_free j l (omega arith);
    is_used = λ j l u.
        ap given.phys_mem (base_same j l u)
        ∙ mark_same (k'.page_mem (data_entry pt j)).pbase_addr (not_last j l u)
        ∙ o.is_used j l (omega arith);
    distinct = λ a b l m u.
        rw (base_same b (omega arith) u, base_same a l (omega arith))
          (o.distinct a b l m (omega arith));
    mapped = λ j l u.
        entry_same j l u
        ∙ o.mapped j l (omega arith)
        ∙ ap (λ b. mapping b 1 1) (sym (base_same j l u));
    others = λ a ne. elim (ℕ_discrete a (data_entry pt (pag + i))) [
      | yes e ↦ ap given.page_mem e ∙ entry_clear ∙ sym clear ∙ ap k.page_mem (sym e)
      | no other ↦ other_entry a ne other
    ];
    kept = λ f used.
        mark_same f (λ q. omega (arith, used, ap k.phys_mem q ∙ last_free)) ∙ o.kept f used;
    other_marks = λ f ne. elim (ℕ_discrete f last) [
      | yes e ↦ ap given.phys_mem e ∙ mark_freed ∙ sym last_free ∙ ap k.phys_mem (sym e)
      | no other ↦ other_mark f (λ j l u q. ne j l u (q ∙ sym (base_same j l u))) other
    ];
    rest =
        ap (λ (q : Kernel). record q { phys_mem = given.phys_mem; page_mem = given.page_mem })
          o.rest;
  }

rollback_loop-done :
    (fuel c pt old : ℕ) (k : Kernel) → heap_pointer k c ≤ old → rollback_loop fuel c pt old k ≡ k
unfolding rollback_loop
rollback_loop-done zero c pt old k h = refl
rollback_loop-done (suc fuel) c pt old k h = ground arith

-- One round.
rollback_loop-step :
    (fuel c pt old p : ℕ) (k : Kernel)
    → heap_pointer k c ≡ page_address (p + 1)
    → old < page_address (p + 1)
    → page_address (p + 1) < 2 ^ 32
    → rollback_loop (suc fuel) c pt old k
      ≡ rollback_loop fuel c pt old
          (give_back (set_heap_pointer k c (page_address p)) pt (pag_log_init_data + p))
unfolding rollback_loop
rollback_loop-step fuel c pt old p k e l small =
    let above : ltb old (heap_pointer k c) ≡ true = ground (arith, e) in
    let less : sub32 (heap_pointer k c) page_size ≡ page_address p = omega (arith, e) in
    let set : heap_pointer (set_heap_pointer k c (page_address p)) c / page_size
        ≡ pag_log_init_data + p =
      ground arith in
    rw (above, rollback_loop, less, set) refl

pub rollback_loop-OwnFrames :
    (i fuel c pt pag : ℕ) (k k' : Kernel)
    → i ≤ fuel
    → heap_pointer k' c ≡ page_address (pag + i)
    → page_address (pag + i) < 2 ^ 32
    → k.phys_mem num_pag_kernel ≡ used_mark
    → ((j : ℕ) → pag ≤ j → j < pag + i → k.page_mem (data_entry pt j) ≡ zero_entry)
    → OwnFrames i pt pag k (with_pages k k')
    → (k'' : Kernel) × (rollback_loop fuel c pt (page_address pag) k' ≡ k'')
      × OwnFrames 0 pt pag k (with_pages k k'')
      × (heap_pointer k'' c ≡ page_address pag)
rollback_loop-OwnFrames zero fuel c pt pag k k' h e small low clear o =
    (k', rollback_loop-done fuel c pt (page_address pag) k' (omega (arith, e)), o, e ∙ omega arith)
rollback_loop-OwnFrames (suc i) zero c pt pag k k' h e small low clear o = absurd (omega arith)
rollback_loop-OwnFrames (suc i) (suc fuel) c pt pag k k' h e small low clear o =
    let p = pag + i in
    let k1 = give_back (set_heap_pointer k' c (page_address p)) pt (pag_log_init_data + p) in
    let up : page_address (pag + suc i) ≡ page_address (p + 1) = omega arith in
    let set : heap_pointer k1 c ≡ page_address p = ground arith in
    let (k'', run, own, back) =
      rollback_loop-OwnFrames i fuel c pt pag k k1 (omega arith) set (omega arith) low
        (λ j l u. clear j l (omega arith))
        (given-OwnFrames i pt pag k (with_pages k k') o low
          (clear p (omega arith) (omega arith))) in
    (
      k'',
      rollback_loop-step fuel c pt (page_address pag) p k' (e ∙ up) (omega arith) (omega arith)
          ∙ run,
      own,
      back,
    )

-- A frame in front of the others.
unfoldable pub with_first : (n f : ℕ) → (ℕ → ℕ) → ℕ → ℕ
with_first n f g i = if i == n then f else g i

pub FreeFrames-with_first :
    (n f : ℕ) (m : PhysMem) (g : ℕ → ℕ)
    → IsUserFrame f
    → m f ≡ free_mark
    → FreeFrames n (update m f used_mark) g
    → FreeFrames (suc n) m (with_first n f g)
unfolding with_first
FreeFrames-with_first n f m g user free h = record {
  user = λ i l. elim (ℕ_discrete i n) [
    | yes e ↦ ground (arith, user)
    | no ne ↦ ground (arith, h.user i (omega arith))
  ];
  free = λ i l. elim (ℕ_discrete i n) [
    | yes e ↦ ground (arith, free)
    | no ne ↦ ground (arith, h.free i (omega arith))
  ];
  distinct = λ i j l u. elim (ℕ_discrete j n) [
    | yes e ↦ ground (arith, h.free i (omega arith))
    | no ne ↦ ground (arith, h.distinct i j l (omega arith))
  ];
}

-- ===== src/Mm/Paging/Free.antt =====
-- mm.c: what `free_user_pages` does, page by page.
use native.Mathlib.Decide.{ℕ_discrete}
use zeos_soa.Base.{ℕ, zero, suc, ◌+◌, ◌-◌, ◌≤◌, ◌<◌, ◌≡◌, ◌≢◌, refl, ap, ◌∙◌, subst, update, arith}
use zeos_soa.Mm.Frames.{PhysMem, free_mark, num_pag_kernel, total_pages, free_frame}
use zeos_soa.Mm.Paging.{
  Entry, PageMem, zero_entry, entry_at, get_frame, free_pages_loop, free_user_pages, num_pag_data,
  pag_log_init_data,
}

-- Clearing the entry of `page` leaves the frames of the later pages.
later_entry :
    (pt page j : ℕ) (pm : PageMem)
    → page < j
    → get_frame (update pm (entry_at pt page) zero_entry) pt j ≡ get_frame pm pt j
unfolding get_frame
later_entry pt page j pm l =
    let same : update pm (entry_at pt page) zero_entry (entry_at pt j) ≡ pm (entry_at pt j) =
      ground arith in
    ap (λ (e : Entry). e.pbase_addr) same

-- A frame that none of the pages maps keeps its mark, and one that is free stays free.
pub free_pages_loop-other :
    (n pt page : ℕ) (m : PhysMem) (pm : PageMem) (f : ℕ)
    → ((j : ℕ) → page ≤ j → j < page + n → f ≢ get_frame pm pt j)
    → (free_pages_loop n pt page (m, pm)).0 f ≡ m f
unfolding free_pages_loop free_frame
free_pages_loop-other zero pt page m pm f h = refl
free_pages_loop-other (suc n) pt page m pm f h =
    let first : f ≢ get_frame pm pt page = h page (omega arith) (omega arith) in
    free_pages_loop-other n pt (page + 1) (free_frame m (get_frame pm pt page))
      (update pm (entry_at pt page) zero_entry) f
      (λ j l u q. h j (omega arith) (omega arith) (q ∙ later_entry pt page j pm (omega arith)))
    ∙ ground arith

free_pages_loop-free :
    (n pt page : ℕ) (m : PhysMem) (pm : PageMem) (f : ℕ)
    → m f ≡ free_mark
    → (free_pages_loop n pt page (m, pm)).0 f ≡ free_mark
unfolding free_pages_loop free_frame
free_pages_loop-free zero pt page m pm f h = h
free_pages_loop-free (suc n) pt page m pm f h =
    free_pages_loop-free n pt (page + 1) (free_frame m (get_frame pm pt page))
      (update pm (entry_at pt page) zero_entry) f (ground arith)

pub free_pages_loop-entry :
    (n pt page : ℕ) (m : PhysMem) (pm : PageMem) (a : ℕ)
    → ((j : ℕ) → page ≤ j → j < page + n → a ≢ entry_at pt j)
    → (free_pages_loop n pt page (m, pm)).1 a ≡ pm a
unfolding free_pages_loop
free_pages_loop-entry zero pt page m pm a h = refl
free_pages_loop-entry (suc n) pt page m pm a h =
    let first : a ≢ entry_at pt page = h page (omega arith) (omega arith) in
    free_pages_loop-entry n pt (page + 1) (free_frame m (get_frame pm pt page))
      (update pm (entry_at pt page) zero_entry) a (λ j l u. h j (omega arith) (omega arith))
    ∙ ground arith

-- The frame of each of the pages is free afterwards, unless it is the one that is never freed.
pub free_pages_loop-freed :
    (n pt page : ℕ) (m : PhysMem) (pm : PageMem) (j : ℕ)
    → page ≤ j
    → j < page + n
    → num_pag_kernel < get_frame pm pt j
    → get_frame pm pt j < total_pages
    → (free_pages_loop n pt page (m, pm)).0 (get_frame pm pt j) ≡ free_mark
unfolding free_pages_loop free_frame
free_pages_loop-freed zero pt page m pm j l u lo hi = absurd (omega arith)
free_pages_loop-freed (suc n) pt page m pm j l u lo hi =
    let m' = free_frame m (get_frame pm pt page) in
    let pm' = update pm (entry_at pt page) zero_entry in
    elim (ℕ_discrete j page) [
      | yes e ↦
          let above : num_pag_kernel < get_frame pm pt page =
            subst (λ z. num_pag_kernel < get_frame pm pt z) e lo in
          let below : get_frame pm pt page < total_pages =
            subst (λ z. get_frame pm pt z < total_pages) e hi in
          rw (e) (free_pages_loop-free n pt (page + 1) m' pm' (get_frame pm pt page) (ground arith))
      | no ne ↦
          let same = later_entry pt page j pm (omega arith) in
          subst (λ f. (free_pages_loop n pt (page + 1) (m', pm')).0 f ≡ free_mark) same
            (free_pages_loop-freed n pt (page + 1) m' pm' j (omega arith) (omega arith)
              (rw (same) lo) (rw (same) hi))
    ]

free_pages_loop-cleared :
    (n pt page : ℕ) (m : PhysMem) (pm : PageMem) (j : ℕ)
    → page ≤ j
    → j < page + n
    → (free_pages_loop n pt page (m, pm)).1 (entry_at pt j) ≡ zero_entry
unfolding free_pages_loop
free_pages_loop-cleared zero pt page m pm j l u = absurd (omega arith)
free_pages_loop-cleared (suc n) pt page m pm j l u =
    let m' = free_frame m (get_frame pm pt page) in
    let pm' = update pm (entry_at pt page) zero_entry in
    elim (ℕ_discrete j page) [
      | yes e ↦
          let away =
            free_pages_loop-entry n pt (page + 1) m' pm' (entry_at pt j)
              (λ i lo hi q. omega (arith, e, q, lo)) in
          away ∙ ground (arith, e)
      | no ne ↦
          free_pages_loop-cleared n pt (page + 1) m' pm' j (omega (arith, l, ne)) (omega (arith, u))
    ]

-- The memory `m'` and the table entries `pm'` after the data pages of the table at `pt` were given
-- back: their frames are free, but for a frame that is not above the kernel's last, their entries are
-- clear, and no other frame and no other entry has changed.
pub record DataFreed (pt : ℕ) (m m' : PhysMem) (pm pm' : PageMem) : Type 0 where
  pub freed :
      (j : ℕ)
      → j < num_pag_data
      → num_pag_kernel < get_frame pm pt (pag_log_init_data + j)
      → get_frame pm pt (pag_log_init_data + j) < total_pages
      → m' (get_frame pm pt (pag_log_init_data + j)) ≡ free_mark
  pub other_frames :
      (f : ℕ)
      → ((j : ℕ) → j < num_pag_data → f ≢ get_frame pm pt (pag_log_init_data + j))
      → m' f ≡ m f
  pub cleared : (j : ℕ) → j < num_pag_data → pm' (entry_at pt (pag_log_init_data + j)) ≡ zero_entry
  pub other_entries :
      (a : ℕ)
      → ((j : ℕ) → j < num_pag_data → a ≢ entry_at pt (pag_log_init_data + j))
      → pm' a ≡ pm a

pub free_user_pages-DataFreed :
    (pt : ℕ) (m : PhysMem) (pm : PageMem)
    → let r = free_user_pages pt (m, pm) in DataFreed pt m r.0 pm r.1
unfolding free_user_pages
free_user_pages-DataFreed pt m pm = record {
  freed = λ j h.
      free_pages_loop-freed num_pag_data pt pag_log_init_data m pm (pag_log_init_data + j)
        (omega arith) (omega (arith, h));
  other_frames = λ f h. free_pages_loop-other num_pag_data pt pag_log_init_data m pm f (λ j lo hi e.
      h (j - pag_log_init_data) (omega (arith, lo, hi))
        (e ∙ ap (get_frame pm pt) (omega (arith, lo))));
  cleared = λ j h.
      free_pages_loop-cleared num_pag_data pt pag_log_init_data m pm (pag_log_init_data + j)
        (omega arith) (omega (arith, h));
  other_entries = λ a h.
      free_pages_loop-entry num_pag_data pt pag_log_init_data m pm a
        (λ j lo hi e. h (j - pag_log_init_data) (omega (arith, lo, hi)) (e ∙ omega (arith, lo)));
}

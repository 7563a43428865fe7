-- ===== src/Sys/Fork/Pages.antt =====
-- The loop of `sys_fork` over the data pages.
use zeos_soa.Base.{ℕ, zero, suc, ◌+◌, ◌≤◌, ◌<◌, ◌≡◌, ◌≢◌, refl, sym, ap, ◌∙◌, some, arith}
use native.Mathlib.Decide.{ℕ_discrete}
use zeos_soa.Mm.Paging.{num_pag_data, entry_at, get_frame}
use zeos_soa.Kernel.{Kernel}
use zeos_soa.Sys.Fork.{copy_pages_loop}
use zeos_soa.Sys.Fork.Copy.{Copyable, Copied, one_copied, one_copied-entry, copy_data_page-eq}

-- What the rest of the loop finds at the pages that it copies.
module _ (ppt cpt pag n : ℕ) (k : Kernel) (c : Copyable ppt cpt pag (suc n) k) where
  parent_entry :
      (j : ℕ)
      → pag < j
      → j ≤ pag + n
      → (one_copied ppt cpt pag k).page_mem (entry_at ppt j) ≡ k.page_mem (entry_at ppt j)
  parent_entry j l u =
      one_copied-entry ppt cpt pag n (entry_at ppt j) k
        (c.parent_kept j (omega arith) (omega arith))

  child_frame :
      (j : ℕ)
      → pag < j
      → j ≤ pag + n
      → get_frame (one_copied ppt cpt pag k).page_mem cpt j ≡ get_frame k.page_mem cpt j
  unfolding get_frame
  child_frame j l u =
      ap (λ e. e.pbase_addr)
        (one_copied-entry ppt cpt pag n (entry_at cpt j) k
          (c.child_kept j (omega arith) (omega arith)))

  parent_frame :
      (j : ℕ)
      → pag < j
      → j ≤ pag + n
      → get_frame (one_copied ppt cpt pag k).page_mem ppt j ≡ get_frame k.page_mem ppt j
  unfolding get_frame
  parent_frame j l u = ap (λ e. e.pbase_addr) (parent_entry j l u)

  one_copied-Copyable : Copyable ppt cpt (pag + 1) n (one_copied ppt cpt pag k)
  one_copied-Copyable = record {
    parent_kept =
        λ j l u i l' u'. c.parent_kept j (omega arith) (omega arith) i (omega arith) (omega arith);
    child_kept =
        λ j l u i l' u'. c.child_kept j (omega arith) (omega arith) i (omega arith) (omega arith);
    present = λ j l u.
        rw (parent_entry j (omega arith) (omega arith)) (c.present j (omega arith) (omega arith));
    small = λ j l u.
        rw (child_frame j (omega arith) (omega arith)) (c.small j (omega arith) (omega arith));
    distinct = λ i j l m u.
        rw (child_frame j (omega arith) (omega arith), child_frame i (omega arith) (omega arith))
          (c.distinct i j (omega arith) m (omega arith));
    fresh = λ i j l u l' u'.
        rw (parent_frame j (omega arith) (omega arith), child_frame i (omega arith) (omega arith))
          (c.fresh i j (omega arith) (omega arith) (omega arith) (omega arith));
  }

  module _ (k' : Kernel) (d : Copied ppt cpt (pag + 1) n (one_copied ppt cpt pag k) k') where
    first_bytes :
        k'.frame_data (get_frame k.page_mem cpt pag) ≡ k.frame_data (get_frame k.page_mem ppt pag)
    first_bytes =
        d.other_frames (get_frame k.page_mem cpt pag) (λ i l u q.
          c.distinct pag i (omega arith) (omega arith) (omega arith)
            (sym (q ∙ child_frame i (omega arith) (omega arith))))
        ∙ ground arith

    later_bytes :
        (j : ℕ)
        → pag < j
        → j ≤ pag + n
        → k'.frame_data (get_frame k.page_mem cpt j) ≡ k.frame_data (get_frame k.page_mem ppt j)
    later_bytes j l u =
        let ne : get_frame k.page_mem ppt j ≢ get_frame k.page_mem cpt pag =
          c.fresh pag j (omega arith) (omega arith) (omega arith) (omega arith) in
        ap k'.frame_data (sym (child_frame j l u))
        ∙ d.same_bytes j (omega arith) (omega arith)
        ∙ ap (one_copied ppt cpt pag k).frame_data (parent_frame j l u)
        ∙ ground arith

    untouched_frame :
        (f : ℕ)
        → ((j : ℕ) → pag ≤ j → j < pag + suc n → f ≢ get_frame k.page_mem cpt j)
        → k'.frame_data f ≡ k.frame_data f
    untouched_frame f h =
        let ne : f ≢ get_frame k.page_mem cpt pag = h pag (omega arith) (omega arith) in
        d.other_frames f (λ j l u q.
          h j (omega arith) (omega arith) (q ∙ child_frame j (omega arith) (omega arith)))
        ∙ ground arith

    Copied-step : Copied ppt cpt pag (suc n) k k'
    Copied-step = record {
      same_bytes = λ j l u. elim (ℕ_discrete j pag) [
        | yes e ↦ rw (e) first_bytes
        | no ne ↦ later_bytes j (omega arith) (omega arith)
      ];
      other_frames = untouched_frame;
      other_entries = λ a h.
          d.other_entries a (λ j l u. h j (omega arith) (omega arith))
          ∙ one_copied-entry ppt cpt pag n a k h;
      returned = λ j l u. elim (ℕ_discrete j pag) [
        | yes e ↦ rw (e) (
            d.other_entries (entry_at ppt (pag + num_pag_data)) (λ i l' u'. omega arith)
            ∙ ground arith)
        | no ne ↦ d.returned j (omega arith) (omega arith)
      ];
      rest = d.rest;
    }

-- With the child's frames in place, the loop of `sys_fork` over the data pages ends without a page
-- fault, and has copied what the parent's frames hold.
pub copy_pages_loop-Copied :
    (n ppt cpt pag : ℕ) (k : Kernel)
    → Copyable ppt cpt pag n k
    → (k' : Kernel) × (copy_pages_loop n ppt cpt pag k ≡ some k') × Copied ppt cpt pag n k k'
unfolding copy_pages_loop
copy_pages_loop-Copied zero ppt cpt pag k c = (
  k,
  refl,
  record {
    same_bytes = λ j l u. absurd (omega arith);
    other_frames = λ f h. refl;
    other_entries = λ a h. refl;
    returned = λ j l u. absurd (omega arith);
    rest = refl;
  },
)
copy_pages_loop-Copied (suc n) ppt cpt pag k c =
    let (k', e, d) =
      copy_pages_loop-Copied n ppt cpt (pag + 1) (one_copied ppt cpt pag k)
        (one_copied-Copyable ppt cpt pag n k c) in
    (
      k',
      rw
          (copy_data_page-eq ppt cpt pag k (c.present pag (omega arith) (omega arith))
            (c.small pag (omega arith) (omega arith)))
          e,
      Copied-step ppt cpt pag n k c k' d,
    )

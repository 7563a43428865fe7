-- ===== src/Sys/Fork/Undo.antt =====
-- What `sys_fork` gives back when the frames run out.
use native.Mathlib.Decide.{ℕ_discrete}
use mathlib.Core.Path.{fun_ext}
use zeos_soa.Base.{
  ℕ, zero, suc, ◌+◌, ◌-◌, ◌≤◌, ◌<◌, ◌≡◌, ◌≢◌, ◌⊎◌, inl, inr, refl, sym, ap, subst, ◌∙◌, Bool, true,
  false, neg, arith,
}
use zeos_soa.Mm.Frames.{PhysMem, used_mark, num_pag_kernel, alloc_frame}
use zeos_soa.Mm.Frames.Alloc.{alloc_frame-cases}
use zeos_soa.Mm.Paging.{entry_at, get_frame, set_ss_pag, pag_log_init_data, free_pages_loop}
use zeos_soa.Kernel.{Kernel}
use zeos_soa.Mm.Paging.Free.{free_pages_loop-other, free_pages_loop-freed}
use zeos_soa.Sys.Fork.{data_pages_loop}
use zeos_soa.Sys.Fork.Frames.{OwnFrames, data_entry, one_frame, frame_step, no_frames}

-- The allocation ends after `i` rounds: all of them where it succeeds.
pub data_pages_loop-cases :
    (n pt pag : ℕ) (k : Kernel)
    → (ok : Bool) × (i : ℕ) × (k' : Kernel) × (data_pages_loop n pt pag k ≡ (ok, pag + i, k'))
      × ((ok ≡ true → i ≡ n) × (i ≤ n))
      × OwnFrames i pt pag k k'
unfolding data_pages_loop set_ss_pag
data_pages_loop-cases zero pt pag k = (
  true,
  0,
  k,
  ap (λ p. (true, p, k)) (omega arith),
  ((λ e. refl), omega arith),
  no_frames pt pag k,
)
data_pages_loop-cases (suc n) pt pag k = elim (alloc_frame-cases k.phys_mem) [
  | inl a ↦
      let f = (alloc_frame k.phys_mem).0 in
      let (ok, i, k', e, (full, le), o) =
        data_pages_loop-cases n pt (pag + 1) (one_frame pt pag f k) in
      let some_frame : f ≢ neg 1 = omega (arith, a.user) in
      let next : pag + 1 + i ≡ pag + suc i = omega arith in
      (
        ok,
        suc i,
        k',
        rw (a.marked) (ground (arith, e)),
        ((λ t. ap (λ x. suc x) (full t)), omega arith),
        frame_step i pt pag f k k' a.user a.was_free o,
      )
  | inr e ↦
      let stop : pag ≡ pag + 0 = omega arith in
      (
        false,
        0,
        k,
        rw (e.minus_one, e.same) (ap (λ p. (false, p, k)) stop),
        ((λ t. ground arith), omega arith),
        no_frames pt pag k,
      )
]

-- A number is one of finitely many, or none of them.
one_of : (h : ℕ → ℕ) (n x : ℕ) → ((j : ℕ) × (j < n) × (x ≡ h j)) ⊎ ((j : ℕ) → j < n → x ≢ h j)
one_of h zero x = inr (λ j l. absurd (omega arith))
one_of h (suc n) x = elim (ℕ_discrete x (h n)) [
  | yes e ↦ inl (n, omega arith, e)
  | no ne ↦ elim (one_of h n x) [
    | inl (j, l, e) ↦ inl (j, omega arith, e)
    | inr none_of ↦ inr (λ j l. elim (ℕ_discrete j n) [
      | yes e ↦ λ q. ne (q ∙ ap h e)
      | no other ↦ none_of j (omega arith)
    ])
  ]
]

-- What was allocated is given back: the marks are as they were.
module _ (i pt : ℕ) (k k' : Kernel) (low : k.phys_mem num_pag_kernel ≡ used_mark)
    (o : OwnFrames i pt 0 k k') where
  given_back : PhysMem
  given_back = (free_pages_loop i pt pag_log_init_data (k'.phys_mem, k'.page_mem)).0

  above_first : (j : ℕ) → j < i → num_pag_kernel < (k'.page_mem (data_entry pt j)).pbase_addr
  above_first j l =
      let free = o.was_free j (omega arith) (omega arith) in
      let user = o.user j (omega arith) (omega arith) in ground (arith, user, low, free)

  mine_restored :
      (j : ℕ)
      → j < i
      → given_back (k'.page_mem (data_entry pt j)).pbase_addr
        ≡ k.phys_mem (k'.page_mem (data_entry pt j)).pbase_addr
  unfolding given_back get_frame
  mine_restored j l =
      free_pages_loop-freed i pt pag_log_init_data k'.phys_mem k'.page_mem (pag_log_init_data + j)
        (omega arith) (omega arith) (above_first j l) (o.user j (omega arith) (omega arith)).1
      ∙ sym (o.was_free j (omega arith) (omega arith))

  others_restored :
      (f : ℕ)
      → ((j : ℕ) → j < i → f ≢ (k'.page_mem (data_entry pt j)).pbase_addr)
      → given_back f ≡ k.phys_mem f
  unfolding given_back get_frame
  others_restored f none_of =
      free_pages_loop-other i pt pag_log_init_data k'.phys_mem k'.page_mem f (λ j l u q.
        let at : entry_at pt j ≡ data_entry pt (j - pag_log_init_data) = omega arith in
        none_of (j - pag_log_init_data) (omega arith) (q ∙ ap (λ a. (k'.page_mem a).pbase_addr) at))
      ∙ o.other_marks f (λ j l u. none_of j (omega arith))

  pub frames_restored :
      (free_pages_loop i pt pag_log_init_data (k'.phys_mem, k'.page_mem)).0 ≡ k.phys_mem
  unfolding given_back
  frames_restored = fun_ext λ f.
      elim (one_of (λ j. (k'.page_mem (data_entry pt j)).pbase_addr) i f) [
        | inl (j, l, e) ↦ subst (λ z. given_back z ≡ k.phys_mem z) (sym e) (mine_restored j l)
        | inr none_of ↦ others_restored f none_of
      ]

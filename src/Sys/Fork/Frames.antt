-- ===== src/Sys/Fork/Frames.antt =====
-- The frames that `sys_fork` allocates for the child's data pages.
use native.Mathlib.Decide.{ℕ_discrete}
use zeos_soa.Base.{
  ℕ, zero, suc, ◌+◌, ◌≤◌, ◌<◌, ◌≡◌, ◌≢◌, inl, inr, refl, sym, ap, subst, ◌∙◌, true, ◌==◌,
  if◌then◌else◌, neg, arith, update,
}
use zeos_soa.Mm.Frames.{PhysMem, free_mark, used_mark, alloc_frame}
use zeos_soa.Mm.Frames.Alloc.{IsUserFrame, Allocated, alloc_frame-cases}
use zeos_soa.Mm.Paging.{Entry, mapping, entry_at, set_ss_pag, pag_log_init_data}
use zeos_soa.Kernel.{Kernel}
use zeos_soa.Sys.Fork.{data_pages_loop}

-- `g 0` to `g (n - 1)` are free frames, no two of them the same.
pub record FreeFrames (n : ℕ) (m : PhysMem) (g : ℕ → ℕ) : Type 0 where
  pub user : (i : ℕ) → i < n → IsUserFrame (g i)
  pub free : (i : ℕ) → i < n → m (g i) ≡ free_mark
  pub distinct : (i j : ℕ) → i < j → j < n → g j ≢ g i

-- What is left of them when frame `f` is taken: the last stands in for it.
abbrev pub without : (n f : ℕ) → (ℕ → ℕ) → ℕ → ℕ
without n f g i = if g i == f then g n else g i

pub FreeFrames-without :
    (n f : ℕ) (m : PhysMem) (g : ℕ → ℕ)
    → FreeFrames (suc n) m g
    → FreeFrames n (update m f used_mark) (without n f g)
FreeFrames-without n f m g h = record {
  user = λ i l. ground (arith, h.user i (omega arith), h.user n (omega arith));
  free = λ i l.
      let ne : g n ≢ g i = h.distinct i n l (omega arith) in
      ground (arith, h.free i (omega arith), h.free n (omega arith));
  distinct = λ i j l u.
      let ij : g j ≢ g i = h.distinct i j l (omega arith) in
      let ie : g n ≢ g i = h.distinct i n (omega arith) (omega arith) in
      let je : g n ≢ g j = h.distinct j n u (omega arith) in ground arith;
}

-- The frame that the next round gets.
pub next_frame :
    (n : ℕ) (m : PhysMem) (g : ℕ → ℕ)
    → FreeFrames (suc n) m g
    → Allocated m (alloc_frame m).0 (alloc_frame m).1
next_frame n m g h = elim (alloc_frame-cases m) [
  | inl a ↦ a
  | inr e ↦ absurd (e.none_free (g 0) (h.user 0 (omega arith)) (h.free 0 (omega arith)))
]

-- The address of the entry that round `j` sets.
abbrev pub data_entry : (pt j : ℕ) → ℕ
data_entry pt j = entry_at pt (pag_log_init_data + j)

-- The frames of the pages from `pag` on: user frames that were free and are used, no two the same,
-- and mapped writable for user mode; the other entries are as they were.
pub record OwnFrames (n pt pag : ℕ) (k k' : Kernel) : Type 0 where
  pub user :
      (j : ℕ) → pag ≤ j → j < pag + n → IsUserFrame (k'.page_mem (data_entry pt j)).pbase_addr
  pub was_free :
      (j : ℕ)
      → pag ≤ j
      → j < pag + n
      → k.phys_mem (k'.page_mem (data_entry pt j)).pbase_addr ≡ free_mark
  pub is_used :
      (j : ℕ)
      → pag ≤ j
      → j < pag + n
      → k'.phys_mem (k'.page_mem (data_entry pt j)).pbase_addr ≡ used_mark
  pub distinct :
      (i j : ℕ)
      → pag ≤ i
      → i < j
      → j < pag + n
      → (k'.page_mem (data_entry pt j)).pbase_addr ≢ (k'.page_mem (data_entry pt i)).pbase_addr
  pub mapped :
      (j : ℕ)
      → pag ≤ j
      → j < pag + n
      → k'.page_mem (data_entry pt j) ≡ mapping (k'.page_mem (data_entry pt j)).pbase_addr 1 1
  pub others :
      (a : ℕ)
      → ((j : ℕ) → pag ≤ j → j < pag + n → a ≢ data_entry pt j)
      → k'.page_mem a ≡ k.page_mem a
  pub kept : (f : ℕ) → k.phys_mem f ≡ used_mark → k'.phys_mem f ≡ used_mark
  pub other_marks :
      (f : ℕ)
      → ((j : ℕ) → pag ≤ j → j < pag + n → f ≢ (k'.page_mem (data_entry pt j)).pbase_addr)
      → k'.phys_mem f ≡ k.phys_mem f
  pub rest : k' ≡ record k { phys_mem = k'.phys_mem; page_mem = k'.page_mem }

-- The state after one round that gets frame `f`.
abbrev pub one_frame : (pt pag f : ℕ) → Kernel → Kernel
one_frame pt pag f k = record k {
  phys_mem = update k.phys_mem f used_mark;
  page_mem = update k.page_mem (data_entry pt pag) (mapping f 1 1);
}

module _ (n pt pag f : ℕ) (k k' : Kernel) (user : IsUserFrame f) (free : k.phys_mem f ≡ free_mark)
    (o : OwnFrames n pt (pag + 1) (one_frame pt pag f k) k') where
  first_entry : k'.page_mem (data_entry pt pag) ≡ mapping f 1 1
  first_entry = o.others (data_entry pt pag) (λ j l u. omega arith) ∙ ground arith

  first_base : (k'.page_mem (data_entry pt pag)).pbase_addr ≡ f
  first_base = ap (λ (e : Entry). e.pbase_addr) first_entry ∙ omega arith

  -- A later frame was free when `f` was taken, so it is another.
  later_frame :
      (j : ℕ)
      → pag + 1 ≤ j
      → j < pag + 1 + n
      → ((k'.page_mem (data_entry pt j)).pbase_addr ≢ f)
        × (k.phys_mem (k'.page_mem (data_entry pt j)).pbase_addr ≡ free_mark)
  later_frame j l u = ground (arith, o.was_free j l u)

  first_used : k'.phys_mem f ≡ used_mark
  first_used = o.kept f (ground arith)

  first_or_later :
      {P : ℕ → Type 0}
      → P pag
      → ((j : ℕ) → pag + 1 ≤ j → j < pag + 1 + n → P j)
      → (j : ℕ) → pag ≤ j
      → j < pag + suc n
      → P j
  first_or_later {P} first later j l u = elim (ℕ_discrete j pag) [
    | yes e ↦ subst P (sym e) first
    | no ne ↦ later j (omega arith) (omega arith)
  ]

  pub frame_step : OwnFrames (suc n) pt pag k k'
  frame_step = record {
    user = first_or_later (subst IsUserFrame (sym first_base) user) o.user;
    was_free = first_or_later (ap k.phys_mem first_base ∙ free) (λ j l u. (later_frame j l u).1);
    is_used = first_or_later (ap k'.phys_mem first_base ∙ first_used) o.is_used;
    distinct = λ i j l m u. elim (ℕ_discrete i pag) [
      | yes e ↦
          subst
            (λ q.
              (k'.page_mem (data_entry pt j)).pbase_addr
              ≢ (k'.page_mem (data_entry pt q)).pbase_addr)
            (sym e) (λ q. (later_frame j (omega arith) (omega arith)).0 (q ∙ first_base))
      | no ne ↦ o.distinct i j (omega arith) m (omega arith)
    ];
    mapped = first_or_later (first_entry ∙ ap (λ b. mapping b 1 1) (sym first_base)) o.mapped;
    others = λ a ne.
        let first : a ≢ data_entry pt pag = ne pag (omega arith) (omega arith) in
        o.others a (λ j l u. ne j (omega arith) (omega arith)) ∙ ground arith;
    kept = λ g used. o.kept g (ground arith);
    other_marks = λ g ne.
        let first : g ≢ f = λ e. ne pag (omega arith) (omega arith) (e ∙ sym first_base) in
        o.other_marks g (λ j l u. ne j (omega arith) (omega arith)) ∙ ground arith;
    rest = o.rest;
  }

-- No round.
pub no_frames : (pt pag : ℕ) (k : Kernel) → OwnFrames 0 pt pag k k
no_frames pt pag k = record {
  user = λ j l u. absurd (omega arith);
  was_free = λ j l u. absurd (omega arith);
  is_used = λ j l u. absurd (omega arith);
  distinct = λ i j l m u. absurd (omega arith);
  mapped = λ j l u. absurd (omega arith);
  others = λ a ne. refl;
  kept = λ f u. u;
  other_marks = λ f ne. refl;
  rest = refl;
}

-- While there are free frames, the loop succeeds, and every page has a frame of its own.
pub data_pages_loop-OwnFrames :
    (n pt pag : ℕ) (k : Kernel) (g : ℕ → ℕ)
    → FreeFrames n k.phys_mem g
    → (k' : Kernel) × (data_pages_loop n pt pag k ≡ (true, pag + n, k')) × OwnFrames n pt pag k k'
unfolding data_pages_loop set_ss_pag
data_pages_loop-OwnFrames zero pt pag k g h =
    (k, ap (λ p. (true, p, k)) (omega arith), no_frames pt pag k)
data_pages_loop-OwnFrames (suc n) pt pag k g h =
    let a = next_frame n k.phys_mem g h in
    let f = (alloc_frame k.phys_mem).0 in
    let (k', e, o) =
      data_pages_loop-OwnFrames n pt (pag + 1) (one_frame pt pag f k) (without n f g)
        (FreeFrames-without n f k.phys_mem g h) in
    let some_frame : f ≢ neg 1 = omega (arith, a.user) in
    let next : pag + 1 + n ≡ pag + suc n = omega arith in
    (k', rw (a.marked) (ground (arith, e)), frame_step n pt pag f k k' a.user a.was_free o)

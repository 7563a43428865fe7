-- ===== src/Mm/Frames/Alloc.antt =====
-- What `init_frames`, `alloc_frame` and `free_frame` of mm.c promise.
use mathlib.Core.Path.{fun_ext}
use zeos_soa.Base.{
  ℕ, zero, suc, ◌+◌, ◌-◌, ◌*◌, ◌/◌, ◌%◌, ◌≤◌, ◌<◌, ◌≡◌, ◌≢◌, ◌⊎◌, inl, inr, refl, ◌&&◌, arith, ltb,
  leb, if◌then◌else◌, neg, update,
}
use zeos_soa.Mm.Frames.{
  PhysMem, total_pages, num_pag_kernel, free_mark, used_mark, mark_loop, init_frames, alloc_rounds,
  alloc_frame, free_frame,
}
use zeos_soa.Mm.Frames.Scan.{alloc_loop-cases}

-- A frame that the allocator hands out.
abbrev pub IsUserFrame : ℕ → Type 0
IsUserFrame f = (num_pag_kernel ≤ f) × (f < total_pages) × (f % 2 ≡ 0)

-- `f` was free, is the lowest such frame, and only its mark has changed.
pub record Allocated (m : PhysMem) (f : ℕ) (m' : PhysMem) : Type 0 where
  pub user : IsUserFrame f
  pub was_free : m f ≡ free_mark
  pub lowest : (g : ℕ) → IsUserFrame g → g < f → m g ≢ free_mark
  pub marked : m' ≡ update m f used_mark

-- No frame is free, the result is -1, and nothing has changed.
pub record Exhausted (m : PhysMem) (f : ℕ) (m' : PhysMem) : Type 0 where
  pub minus_one : f ≡ neg 1
  pub none_free : (g : ℕ) → IsUserFrame g → m g ≢ free_mark
  pub same : m' ≡ m

-- `alloc_frame` returns the lowest free even frame from 256 on and marks it used, or there is
-- none, and it returns -1 and changes nothing.
pub alloc_frame-cases :
    (m : PhysMem)
    → Allocated m (alloc_frame m).0 (alloc_frame m).1
      ⊎ Exhausted m (alloc_frame m).0 (alloc_frame m).1
unfolding alloc_frame
alloc_frame-cases m = elim (alloc_loop-cases alloc_rounds num_pag_kernel m) [
  | inl (k, found) ↦ inl (
      rw found.result (record {
        user = omega (arith, found.in_range);
        was_free = found.was_free;
        lowest = λ g u l. below k g found.first u l;
        marked = refl;
      }))
  | inr full ↦ inr (
      rw full.result
        (record { minus_one = refl; none_free = λ g u. all g full.none_free u; same = refl }))
]
  where
    half : (g : ℕ) → IsUserFrame g → num_pag_kernel + 2 * ((g - num_pag_kernel) / 2) ≡ g
    half g u = omega arith

    below :
        (k g : ℕ)
        → ((j : ℕ) → j < k → m (num_pag_kernel + 2 * j) ≢ free_mark)
        → IsUserFrame g
        → g < num_pag_kernel + 2 * k
        → m g ≢ free_mark
    below k g first u l e = first ((g - num_pag_kernel) / 2) (omega arith) (rw (half g u) e)

    all :
        (g : ℕ)
        → ((j : ℕ) → j < alloc_rounds → m (num_pag_kernel + 2 * j) ≢ free_mark)
        → IsUserFrame g
        → m g ≢ free_mark
    all g none u e = none ((g - num_pag_kernel) / 2) (omega arith) (rw (half g u) e)

mark_loop_lem :
    (n i v : ℕ) (m : PhysMem) (a : ℕ)
    → mark_loop n i v m a ≡ (if leb i a && ltb a (i + n) then v else m a)
unfolding mark_loop
mark_loop_lem zero i v m a = ground arith
mark_loop_lem (suc n) i v m a = ground (arith, mark_loop_lem n (i + 1) v (update m i v) a)

-- `init_frames` marks the kernel's frames used and all others free.
pub init_frames_lem :
    (m : PhysMem) (a : ℕ)
    → init_frames m a
      ≡ (if ltb a num_pag_kernel then used_mark else if ltb a total_pages then free_mark else m a)
unfolding init_frames
init_frames_lem m a =
    rw (mark_loop_lem num_pag_kernel 0 used_mark (mark_loop total_pages 0 free_mark m) a)
      (rw (mark_loop_lem total_pages 0 free_mark m a) (ground arith))

-- Freeing a frame that was just allocated restores the map of frames, unless it is frame 256.
pub free_frame-alloc_frame :
    (m : PhysMem)
    → (alloc_frame m).0 ≢ neg 1
    → (alloc_frame m).0 ≢ num_pag_kernel
    → free_frame (alloc_frame m).1 (alloc_frame m).0 ≡ m
unfolding free_frame
free_frame-alloc_frame m some_frame ne = elim (alloc_frame-cases m) [
  | inl a ↦ rw a.marked (fun_ext λ g. ground (arith, a.user, a.was_free))
  | inr e ↦ absurd (some_frame e.minus_one)
]

-- Frame 256 is the first that `alloc_frame` hands out after `init_frames`, and `free_frame` does
-- not take it back: it stays marked used.
pub first_frame_leaks :
    (m : PhysMem)
    → ((alloc_frame (init_frames m)).0 ≡ num_pag_kernel)
      × (free_frame (alloc_frame (init_frames m)).1 num_pag_kernel num_pag_kernel ≡ used_mark)
unfolding free_frame
first_frame_leaks m = elim (alloc_frame-cases (init_frames m)) [
  | inl a ↦
      let z : init_frames m num_pag_kernel ≡ free_mark = init_frames_lem m num_pag_kernel in
      let e : (alloc_frame (init_frames m)).0 ≡ num_pag_kernel =
        ground (arith, a.user, a.lowest num_pag_kernel (omega arith)) in
      (e, rw (a.marked, e))
  | inr e ↦ absurd (e.none_free num_pag_kernel (omega arith) (init_frames_lem m num_pag_kernel))
]

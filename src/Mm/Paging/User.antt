-- ===== src/Mm/Paging/User.antt =====
-- `set_user_pages` and the single-entry operations of mm.c.
use zeos_soa.Base.{
  ℕ, zero, suc, ◌+◌, ◌-◌, ◌*◌, ◌^◌, ◌≤◌, ◌<◌, ◌≡◌, ◌≢◌, inl, inr, ◌∙◌, refl, ap, arith, ltb,
  if◌then◌else◌, update,
}
use native.Mathlib.Decide.{dec_lt}
use zeos_soa.Mm.Frames.{
  PhysMem, num_pag_kernel, total_pages, free_mark, used_mark, init_frames, alloc_frame,
}
use zeos_soa.Mm.Frames.Alloc.{IsUserFrame, alloc_frame-cases, init_frames_lem}
use zeos_soa.Mm.Paging.{
  PageMem, mapping, entry_at, entry_word, num_pag_code, num_pag_data, pag_log_init_code,
  pag_log_init_data, set_ss_pag, del_ss_pag, get_frame, user_pages_loop, set_user_pages,
}

-- A page that `set_ss_pag` maps has the frame, and the word that the processor reads grants user
-- access, writing and presence (the low bits 111); the other pages keep their entries.
pub set_ss_pag_lem :
    (pm : PageMem) (pt page frame other : ℕ)
    → frame < 2 ^ 20
    → (get_frame (set_ss_pag pm pt page frame) pt page ≡ frame)
      × (entry_word (set_ss_pag pm pt page frame (entry_at pt page)) ≡ frame * 2 ^ 12 + 7)
      × (other ≢ page → set_ss_pag pm pt page frame (entry_at pt other) ≡ pm (entry_at pt other))
unfolding set_ss_pag get_frame entry_word
set_ss_pag_lem pm pt page frame other h = (ground arith, ground arith, λ ne. ground arith)

-- After `del_ss_pag` the page's word is 0, so `get_frame` of it is frame 0.
pub del_ss_pag_lem :
    (pm : PageMem) (pt page other : ℕ)
    → (get_frame (del_ss_pag pm pt page) pt page ≡ 0)
      × (entry_word (del_ss_pag pm pt page (entry_at pt page)) ≡ 0)
      × (other ≢ page → del_ss_pag pm pt page (entry_at pt other) ≡ pm (entry_at pt other))
unfolding del_ss_pag get_frame entry_word
del_ss_pag_lem pm pt page other = (ground arith, ground arith, λ ne. ground arith)

-- Of the frames for users, exactly those from `f` on are free.
pub record FreeFrom (m : PhysMem) (f : ℕ) : Type 0 where
  pub user : IsUserFrame f
  pub free : (g : ℕ) → IsUserFrame g → f ≤ g → m g ≡ free_mark
  pub used : (g : ℕ) → IsUserFrame g → g < f → m g ≢ free_mark

alloc_frame_first : (m : PhysMem) (f : ℕ) → FreeFrom m f → alloc_frame m ≡ (f, update m f used_mark)
alloc_frame_first m f h = elim (alloc_frame-cases m) [
  | inl a ↦
      let g = (alloc_frame m).0 in
      let not_before : ¬ (g < f) = λ l. h.used g a.user l a.was_free in
      let not_after : ¬ (f < g) = λ l. a.lowest f h.user l (h.free f h.user (omega arith)) in
      let e : g ≡ f = omega arith in
      let e' : (alloc_frame m).1 ≡ update m f used_mark =
        a.marked ∙ ap (λ x. update m x used_mark) e in
      λ i. (e i, e' i)
  | inr e ↦ absurd (e.none_free f h.user (h.free f h.user (omega arith)))
]

FreeFrom-next :
    (m : PhysMem) (f : ℕ)
    → FreeFrom m f
    → f + 2 < total_pages
    → FreeFrom (update m f used_mark) (f + 2)
FreeFrom-next m f h l = record {
  user = omega (arith, h.user);
  free = λ g u k. ground (arith, h.free g u (omega arith));
  used = λ g u k e. elim (dec_lt g f) [
    | yes l ↦ h.used g u l (ground arith)
    | no n ↦ let z : g ≡ f = omega arith in ground arith
  ];
}

pub user_pages_loop_outside :
    (n pt page rw_bit : ℕ) (m : PhysMem) (pm : PageMem) (a : ℕ)
    → a < entry_at pt page
    → (user_pages_loop n pt page rw_bit (m, pm)).1 a ≡ pm a
unfolding user_pages_loop
user_pages_loop_outside zero pt page rw_bit m pm a h = refl
user_pages_loop_outside (suc n) pt page rw_bit m pm a h = ground (
  arith,
  user_pages_loop_outside n pt (page + 1) rw_bit (alloc_frame m).1
      (update pm (entry_at pt page) (mapping (alloc_frame m).0 rw_bit 1)) a,
)

pub user_pages_loop_beyond :
    (n pt page rw_bit : ℕ) (m : PhysMem) (pm : PageMem) (a : ℕ)
    → entry_at pt (page + n) ≤ a
    → (user_pages_loop n pt page rw_bit (m, pm)).1 a ≡ pm a
unfolding user_pages_loop
user_pages_loop_beyond zero pt page rw_bit m pm a h = refl
user_pages_loop_beyond (suc n) pt page rw_bit m pm a h = ground (
  arith,
  user_pages_loop_beyond n pt (page + 1) rw_bit (alloc_frame m).1
      (update pm (entry_at pt page) (mapping (alloc_frame m).0 rw_bit 1)) a,
)

user_pages_loop_step :
    (n pt page rw_bit : ℕ) (m : PhysMem) (pm : PageMem) (f : ℕ)
    → FreeFrom m f
    → user_pages_loop (suc n) pt page rw_bit (m, pm)
      ≡ user_pages_loop n pt
          (page + 1)
          rw_bit
          (update m f used_mark, update pm (entry_at pt page) (mapping f rw_bit 1))
unfolding user_pages_loop
user_pages_loop_step n pt page rw_bit m pm f h =
    ap
      (λ r.
        user_pages_loop n pt (page + 1) rw_bit
          (r.1, update pm (entry_at pt page) (mapping r.0 rw_bit 1)))
      (alloc_frame_first m f h)

-- The frames that a loop hands to its pages are consecutive even ones.
pub user_pages_loop_frames :
    (n pt page rw_bit : ℕ) (m : PhysMem) (pm : PageMem) (f : ℕ)
    → FreeFrom m f
    → f + 2 * n < total_pages
    → FreeFrom (user_pages_loop n pt page rw_bit (m, pm)).0 (f + 2 * n)
user_pages_loop_frames zero pt page rw_bit m pm f h l =
    let z : f + 2 * 0 ≡ f = omega arith in unfold user_pages_loop in rw z h
user_pages_loop_frames (suc n) pt page rw_bit m pm f h l =
    let z : f + 2 * suc n ≡ f + 2 + 2 * n = omega arith in
    rw (user_pages_loop_step n pt page rw_bit m pm f h, z)
      (user_pages_loop_frames n pt (page + 1) rw_bit (update m f used_mark)
        (update pm (entry_at pt page) (mapping f rw_bit 1)) (f + 2)
        (FreeFrom-next m f h (omega arith)) (omega arith))

pub user_pages_loop_lem :
    (n pt page rw_bit : ℕ) (m : PhysMem) (pm : PageMem) (f j : ℕ)
    → FreeFrom m f
    → f + 2 * n < total_pages
    → j < n
    → (user_pages_loop n pt page rw_bit (m, pm)).1 (entry_at pt (page + j))
      ≡ mapping (f + 2 * j) rw_bit 1
user_pages_loop_lem zero pt page rw_bit m pm f j h l k = absurd (omega arith)
user_pages_loop_lem (suc n) pt page rw_bit m pm f zero h l k =
    let z : page + 0 ≡ page = omega arith in
    let z' : f + 2 * 0 ≡ f = omega arith in
    let pm' = update pm (entry_at pt page) (mapping f rw_bit 1) in
    rw (user_pages_loop_step n pt page rw_bit m pm f h, z, z')
      (user_pages_loop_outside n pt (page + 1) rw_bit (update m f used_mark) pm' (entry_at pt page)
          (omega arith)
        ∙ ground arith)
user_pages_loop_lem (suc n) pt page rw_bit m pm f (suc j) h l k =
    let z : page + suc j ≡ page + 1 + j = omega arith in
    let z' : f + 2 * suc j ≡ f + 2 + 2 * j = omega arith in
    rw (user_pages_loop_step n pt page rw_bit m pm f h, z, z')
      (user_pages_loop_lem n pt (page + 1) rw_bit (update m f used_mark)
        (update pm (entry_at pt page) (mapping f rw_bit 1)) (f + 2) j
        (FreeFrom-next m f h (omega arith)) (omega arith) (omega arith))

pub init_frames-FreeFrom : (m : PhysMem) → FreeFrom (init_frames m) num_pag_kernel
init_frames-FreeFrom m = record {
  user = omega arith;
  free = λ g u l. rw (init_frames_lem m g) (ground arith);
  used = λ g u l. absurd (omega arith);
}

-- At boot, with the frames just initialised, `set_user_pages` maps user page 256 + j to frame
-- 256 + 2j, for all 28 pages of code and data: the 8 code pages read-only, the 20 data pages
-- writable. So no frame is mapped twice.
pub set_user_pages_boot :
    (m : PhysMem) (pm : PageMem) (pt j : ℕ)
    → j < num_pag_code + num_pag_data
    → (set_user_pages pt (init_frames m, pm)).1 (entry_at pt (pag_log_init_code + j))
      ≡ mapping (num_pag_kernel + 2 * j) (if ltb j num_pag_code then 0 else 1) 1
unfolding set_user_pages
set_user_pages_boot m pm pt j h = elim (dec_lt j num_pag_code) [
  | yes code ↦
      user_pages_loop_outside num_pag_data pt pag_log_init_data 1 m1 pm1 at (omega arith)
      ∙ code_entry code
      ∙ ap (λ b. mapping (num_pag_kernel + 2 * j) b 1) (ground arith)
  | no data_page ↦
      let z : pag_log_init_code + j ≡ pag_log_init_data + (j - num_pag_code) = omega arith in
      let z' : num_pag_kernel + 2 * j ≡ num_pag_kernel + 2 * num_pag_code + 2 * (j - num_pag_code) =
        omega arith in
      rw (z, z')
        (user_pages_loop_lem num_pag_data pt pag_log_init_data 1 m1 pm1
            (num_pag_kernel + 2 * num_pag_code) (j - num_pag_code) h1 (omega arith) (omega arith)
          ∙ ap (λ b. mapping (num_pag_kernel + 2 * num_pag_code + 2 * (j - num_pag_code)) b 1)
              (ground arith))
]
  where
    at : ℕ
    at = entry_at pt (pag_log_init_code + j)

    m1 : PhysMem
    m1 = (user_pages_loop num_pag_code pt pag_log_init_code 0 (init_frames m, pm)).0

    pm1 : PageMem
    pm1 = (user_pages_loop num_pag_code pt pag_log_init_code 0 (init_frames m, pm)).1

    h1 : FreeFrom m1 (num_pag_kernel + 2 * num_pag_code)
    h1 =
        user_pages_loop_frames num_pag_code pt pag_log_init_code 0 (init_frames m) pm num_pag_kernel
          (init_frames-FreeFrom m) (omega arith)

    code_entry :
        j < num_pag_code
        → pm1 (entry_at pt (pag_log_init_code + j)) ≡ mapping (num_pag_kernel + 2 * j) 0 1
    code_entry l =
        user_pages_loop_lem num_pag_code pt pag_log_init_code 0 (init_frames m) pm num_pag_kernel j
          (init_frames-FreeFrom m) (omega arith) l

-- ===== src/System/Tables.antt =====
-- mm.c: the page tables and frames that `init_mm` and the `set_user_pages` of `init_task1` leave.
use zeos_soa.Base.{
  ℕ, zero, suc, ◌+◌, ◌*◌, ◌/◌, ◌%◌, ◌^◌, ◌≤◌, ◌<◌, ◌≡◌, ◌⊎◌, inl, inr, refl, subst, ◌∙◌, sym, arith,
  ltb, if◌then◌else◌, update,
}
use zeos_soa.Mm.Frames.{PhysMem, total_pages, num_pag_kernel, init_frames}
use zeos_soa.Mm.Paging.{
  PageMem, mapping, entry_at, page_size, row, nr_tasks, num_pag_code, num_pag_data,
  pag_log_init_code, pag_log_init_data, user_pages_loop, set_user_pages, init_dirs_loop,
  init_dir_pages, init_table_pages,
}
use zeos_soa.Mm.Paging.Init.{initial_entry, init_table_pages_lem, init_dir_pages_lem}
use zeos_soa.Mm.Paging.User.{
  FreeFrom, init_frames-FreeFrom, user_pages_loop_outside, user_pages_loop_beyond,
  user_pages_loop_frames, set_user_pages_boot,
}

-- The page tables start a page and end below 4 GB, and the directories lie outside them.
pub record TablesApart (dirs table : ℕ) : Type 0 where
  pub aligned : table % page_size ≡ 0
  pub small : row table nr_tasks ≤ 2 ^ 32
  pub apart : (row dirs nr_tasks ≤ table) ⊎ (row table nr_tasks ≤ dirs)

init_dirs_loop_outside :
    (n dirs table j : ℕ) (pm : PageMem) (a : ℕ)
    → (a < row dirs j) ⊎ (row dirs (j + n) ≤ a)
    → init_dirs_loop n dirs table j pm a ≡ pm a
unfolding init_dirs_loop
init_dirs_loop_outside zero dirs table j pm a h = refl
init_dirs_loop_outside (suc n) dirs table j pm a h = ground (
  arith,
  init_dirs_loop_outside n dirs table (j + 1)
      (update pm (entry_at (row dirs j) 0) (mapping (row table j / 2 ^ 12) 1 1)) a,
)

-- `set_user_pages` writes only to the entries of the user pages.
set_user_pages_outside :
    (pt : ℕ) (m : PhysMem) (pm : PageMem) (a : ℕ)
    → (a < entry_at pt pag_log_init_code)
      ⊎ (entry_at pt (pag_log_init_code + (num_pag_code + num_pag_data)) ≤ a)
    → (set_user_pages pt (m, pm)).1 a ≡ pm a
unfolding set_user_pages
set_user_pages_outside pt m pm a (inl h) =
    let s = user_pages_loop num_pag_code pt pag_log_init_code 0 (m, pm) in
    user_pages_loop_outside num_pag_data pt pag_log_init_data 1 s.0 s.1 a (omega arith)
    ∙ user_pages_loop_outside num_pag_code pt pag_log_init_code 0 m pm a h
set_user_pages_outside pt m pm a (inr h) =
    let s = user_pages_loop num_pag_code pt pag_log_init_code 0 (m, pm) in
    user_pages_loop_beyond num_pag_data pt pag_log_init_data 1 s.0 s.1 a (omega arith)
    ∙ user_pages_loop_beyond num_pag_code pt pag_log_init_code 0 m pm a (omega arith)

pub set_user_pages-FreeFrom :
    (pt : ℕ) (m : PhysMem) (pm : PageMem)
    → FreeFrom
        (set_user_pages pt (init_frames m, pm)).0
        (num_pag_kernel + 2 * (num_pag_code + num_pag_data))
unfolding set_user_pages
set_user_pages-FreeFrom pt m pm =
    let s = user_pages_loop num_pag_code pt pag_log_init_code 0 (init_frames m, pm) in
    user_pages_loop_frames num_pag_data pt pag_log_init_data 1 s.0 s.1
      (num_pag_kernel + 2 * num_pag_code)
      (user_pages_loop_frames num_pag_code pt pag_log_init_code 0 (init_frames m) pm num_pag_kernel
        (init_frames-FreeFrom m) (omega arith))
      (omega arith)

module _ (guard dirs table : ℕ) (m : PhysMem) (pm : PageMem) (a : TablesApart dirs table) where
  -- The entries after `init_mm`, and after the pages of the first process are set.
  abbrev pub booted_tables : PageMem
  booted_tables = init_dir_pages dirs table (init_table_pages guard table pm)

  abbrev pub first_tables : PhysMem × PageMem
  first_tables = set_user_pages (row table 1) (init_frames m, booted_tables)

  booted_entry :
      (i k : ℕ)
      → i < nr_tasks
      → k < total_pages
      → booted_tables (entry_at (row table i) k) ≡ initial_entry guard k
  unfolding init_dir_pages
  booted_entry i k hi hk =
      init_dirs_loop_outside nr_tasks dirs table 0 (init_table_pages guard table pm)
        (entry_at (row table i) k) (omega (arith, a.apart))
      ∙ init_table_pages_lem guard table pm i k hi hk

  -- Directory 1 leads to table 1.
  pub booted_dir : (booted_tables (dirs + 4096)).pbase_addr * 2 ^ 12 % 2 ^ 32 ≡ row table 1
  booted_dir =
      let e =
        init_dir_pages_lem dirs table (init_table_pages guard table pm) 1 (omega arith) a.aligned
          (omega (arith, a.small)) in
      let at : entry_at (row dirs 1) 0 ≡ dirs + 4096 = omega arith in
      let e' = subst (λ d. (booted_tables d).pbase_addr * 2 ^ 12 ≡ row table 1) at e in
      omega (arith, e', a.small)

  pub first_dir_kept : (first_tables.1 (dirs + 4096)).pbase_addr * 2 ^ 12 % 2 ^ 32 ≡ row table 1
  first_dir_kept =
      subst (λ e. e.pbase_addr * 2 ^ 12 % 2 ^ 32 ≡ row table 1)
        (sym (
          set_user_pages_outside (row table 1) (init_frames m) booted_tables (dirs + 4096)
            (ground (arith, a.apart))))
        booted_dir

  pub first_user_page :
      (j : ℕ)
      → j < num_pag_code + num_pag_data
      → first_tables.1 (entry_at (row table 1) (pag_log_init_code + j))
        ≡ mapping (num_pag_kernel + 2 * j) (if ltb j num_pag_code then 0 else 1) 1
  first_user_page j h = set_user_pages_boot m booted_tables (row table 1) j h

  pub first_other_page :
      (k : ℕ)
      → k < total_pages
      → (k < pag_log_init_code) ⊎ (pag_log_init_code + (num_pag_code + num_pag_data) ≤ k)
      → first_tables.1 (entry_at (row table 1) k) ≡ initial_entry guard k
  first_other_page k h o =
      set_user_pages_outside (row table 1) (init_frames m) booted_tables (entry_at (row table 1) k)
        (ground (arith, o))
      ∙ booted_entry 1 k (omega arith) h

-- ===== src/Mm/Paging/Init.antt =====
-- What `init_table_pages` and `init_dir_pages` of mm.c leave in the tables.
use zeos_soa.Base.{
  ℕ, zero, suc, ◌+◌, ◌-◌, ◌*◌, ◌/◌, ◌%◌, ◌^◌, ◌≤◌, ◌<◌, ◌≡◌, ◌⊎◌, ◌∙◌, Bool, refl, ◌&&◌, ◌||◌, ◌==◌,
  arith, ltb, leb, if◌then◌else◌, update,
}
use native.Mathlib.Decide.{dec_lt}
use zeos_soa.Mm.Frames.{num_pag_kernel, total_pages}
use zeos_soa.Mm.Paging.{
  PageMem, Entry, zero_entry, mapping, entry_at, kernel_entry, page_size, row, nr_tasks, reset_loop,
  kernel_loop, clear_present, init_table, init_tables_loop, init_table_pages, init_dirs_loop,
  init_dir_pages,
}

reset_loop_lem :
    (n pt i : ℕ) (pm : PageMem) (k : ℕ)
    → reset_loop n pt i pm (entry_at pt k)
      ≡ (if leb i k && ltb k (i + n) then zero_entry else pm (entry_at pt k))
unfolding reset_loop
reset_loop_lem zero pt i pm k = ground arith
reset_loop_lem (suc n) pt i pm k =
    ground (arith, reset_loop_lem n pt (i + 1) (update pm (entry_at pt i) zero_entry) k)

kernel_loop_lem :
    (n pt i : ℕ) (pm : PageMem) (k : ℕ)
    → kernel_loop n pt i pm (entry_at pt k) ≡ (
        if leb i k && ltb k (i + n)
        then kernel_entry k (pm (entry_at pt k))
        else pm (entry_at pt k))
unfolding kernel_loop
kernel_loop_lem zero pt i pm k = ground arith
kernel_loop_lem (suc n) pt i pm k = ground (
  arith,
  kernel_loop_lem n pt (i + 1) (update pm (entry_at pt i) (kernel_entry i (pm (entry_at pt i)))) k,
)

-- A loop over one table leaves the addresses outside it alone.
reset_loop_outside :
    (n pt i : ℕ) (pm : PageMem) (a : ℕ)
    → (a < entry_at pt i) ⊎ (entry_at pt (i + n) ≤ a)
    → reset_loop n pt i pm a ≡ pm a
unfolding reset_loop
reset_loop_outside zero pt i pm a h = refl
reset_loop_outside (suc n) pt i pm a h =
    ground (arith, reset_loop_outside n pt (i + 1) (update pm (entry_at pt i) zero_entry) a)

kernel_loop_outside :
    (n pt i : ℕ) (pm : PageMem) (a : ℕ)
    → (a < entry_at pt i) ⊎ (entry_at pt (i + n) ≤ a)
    → kernel_loop n pt i pm a ≡ pm a
unfolding kernel_loop
kernel_loop_outside zero pt i pm a h = refl
kernel_loop_outside (suc n) pt i pm a h = ground (
  arith,
  kernel_loop_outside n pt (i + 1) (update pm (entry_at pt i) (kernel_entry i (pm (entry_at pt i))))
      a,
)

-- The entry of page `k` after `init_table_pages`: kernel pages but page 0 are mapped to
-- themselves, and the two guard pages around the task array are not present.
abbrev pub guard_page : ℕ → ℕ → Bool
guard_page guard k = k == guard / 2 ^ 12 || k == (guard + 11 * page_size) / 2 ^ 12

abbrev pub system_entry : ℕ → Entry
system_entry k = if leb 1 k && ltb k num_pag_kernel then kernel_entry k zero_entry else zero_entry

abbrev pub initial_entry : ℕ → ℕ → Entry
initial_entry guard k =
    if guard_page guard k then record (system_entry k) { present = 0 } else system_entry k

init_table_lem :
    (guard pt : ℕ) (pm : PageMem) (k : ℕ)
    → k < total_pages
    → init_table guard pt pm (entry_at pt k) ≡ initial_entry guard k
unfolding init_table clear_present
init_table_lem guard pt pm k h = ground (
  arith,
  kernel_loop_lem (num_pag_kernel - 1) pt 1 (reset_loop total_pages pt 0 pm) k,
  reset_loop_lem total_pages pt 0 pm k,
)

init_table_below : (guard pt : ℕ) (pm : PageMem) (a : ℕ) → a < pt → init_table guard pt pm a ≡ pm a
unfolding init_table clear_present
init_table_below guard pt pm a h = ground (
  arith,
  kernel_loop_outside (num_pag_kernel - 1) pt 1 (reset_loop total_pages pt 0 pm) a,
  reset_loop_outside total_pages pt 0 pm a,
)

init_tables_loop_below :
    (n guard table j : ℕ) (pm : PageMem) (a : ℕ)
    → a < row table j
    → init_tables_loop n guard table j pm a ≡ pm a
unfolding init_tables_loop
init_tables_loop_below zero guard table j pm a h = refl
init_tables_loop_below (suc n) guard table j pm a h =
    init_tables_loop_below n guard table (j + 1) (init_table guard (row table j) pm) a (omega arith)
    ∙ init_table_below guard (row table j) pm a h

init_tables_loop_lem :
    (n guard table j : ℕ) (pm : PageMem) (i k : ℕ)
    → j ≤ i
    → i < j + n
    → k < total_pages
    → init_tables_loop n guard table j pm (entry_at (row table i) k) ≡ initial_entry guard k
unfolding init_tables_loop
init_tables_loop_lem zero guard table j pm i k l u h = absurd (omega arith)
init_tables_loop_lem (suc n) guard table j pm i k l u h = elim (dec_lt j i) [
  | yes later ↦
      init_tables_loop_lem n guard table (j + 1) (init_table guard (row table j) pm) i k
        (omega arith) (omega arith) h
  | no this ↦
      let e : i ≡ j = omega arith in
      rw e (
        init_tables_loop_below n guard table (j + 1) (init_table guard (row table j) pm)
          (entry_at (row table j) k) (omega arith)
        ∙ init_table_lem guard (row table j) pm k h)
]

-- Whatever memory held before, `init_table_pages` gives each of the ten page tables the same 1024
-- entries: page 0, the guard pages and the user pages are not present, every other kernel page is
-- mapped to the frame of its own number.
pub init_table_pages_lem :
    (guard table : ℕ) (pm : PageMem) (i k : ℕ)
    → i < nr_tasks
    → k < total_pages
    → init_table_pages guard table pm (entry_at (row table i) k) ≡ initial_entry guard k
unfolding init_table_pages
init_table_pages_lem guard table pm i k hi hk =
    init_tables_loop_lem nr_tasks guard table 0 pm i k (omega arith) hi hk

init_dirs_loop_below :
    (n dirs table j : ℕ) (pm : PageMem) (a : ℕ)
    → a < row dirs j
    → init_dirs_loop n dirs table j pm a ≡ pm a
unfolding init_dirs_loop
init_dirs_loop_below zero dirs table j pm a h = refl
init_dirs_loop_below (suc n) dirs table j pm a h = ground (
  arith,
  init_dirs_loop_below n dirs table (j + 1)
      (update pm (entry_at (row dirs j) 0) (mapping (row table j / 2 ^ 12) 1 1)) a,
)

init_dirs_loop_lem :
    (n dirs table j : ℕ) (pm : PageMem) (i : ℕ)
    → j ≤ i
    → i < j + n
    → init_dirs_loop n dirs table j pm (entry_at (row dirs i) 0)
      ≡ mapping (row table i / 2 ^ 12) 1 1
unfolding init_dirs_loop
init_dirs_loop_lem zero dirs table j pm i l u = absurd (omega arith)
init_dirs_loop_lem (suc n) dirs table j pm i l u =
    let pm' = update pm (entry_at (row dirs j) 0) (mapping (row table j / 2 ^ 12) 1 1) in
    elim (dec_lt j i) [
      | yes later ↦ init_dirs_loop_lem n dirs table (j + 1) pm' i (omega arith) (omega arith)
      | no this ↦
          let e : i ≡ j = omega arith in
          rw e (
            init_dirs_loop_below n dirs table (j + 1) pm' (entry_at (row dirs j) 0) (omega arith)
            ∙ ground arith)
    ]

-- `init_dir_pages` points directory `i` at page table `i`: the address that `get_PT` computes from
-- the directory's first entry is the table's own, if the tables are page aligned and below 4 GB.
pub init_dir_pages_lem :
    (dirs table : ℕ) (pm : PageMem) (i : ℕ)
    → i < nr_tasks
    → table % page_size ≡ 0
    → row table i < 2 ^ 32
    → (init_dir_pages dirs table pm (entry_at (row dirs i) 0)).pbase_addr * 2 ^ 12 ≡ row table i
unfolding init_dir_pages
init_dir_pages_lem dirs table pm i h aligned small =
    rw (init_dirs_loop_lem nr_tasks dirs table 0 pm i (omega arith) h) (omega arith)

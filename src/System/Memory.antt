-- ===== src/System/Memory.antt =====
-- system.c: the memory and the turns of the first process after `init_task1`.
use zeos_soa.Base.{
  ℕ, ◌+◌, ◌-◌, ◌*◌, ◌≤◌, ◌<◌, ◌≡◌, ◌≢◌, ◌⊎◌, sym, ap, subst, ◌∙◌, [], arith, ltb, if◌then◌else◌,
}
use zeos_soa.KernelList.Ring.{IsRing}
use zeos_soa.Mm.Frames.{PhysMem, total_pages, num_pag_kernel}
use zeos_soa.Mm.Paging.{
  PageMem, set_user_pages, mapping, entry_at, row, num_pag_code, num_pag_data, pag_log_init_code,
}
use zeos_soa.Mm.Paging.Init.{initial_entry}
use zeos_soa.Mm.Paging.User.{FreeFrom}
use zeos_soa.Io.{Console}
use zeos_soa.Kernel.{Kernel, Layout, list_of, current, allocate_dir, get_dir, get_pt}
use zeos_soa.Sched.Turns.{Turn}
use zeos_soa.Boot.{init_mm}
use zeos_soa.System.{init_kernel}
use zeos_soa.System.Queues.{QueuesApart, task_at}
use zeos_soa.System.Started.{Started, init_task1-Started}
use zeos_soa.System.Tables.{
  TablesApart, booted_tables, first_tables, booted_dir, first_dir_kept, first_user_page,
  first_other_page, set_user_pages-FreeFrom,
}

-- After the calls from `init_mm` to `init_task1`: the tables and the frames.
pub record HasTables (k k' : Kernel) : Type 0 where
  pub table : get_pt k' (task_at k 1) ≡ row k.at.pagusr_table 1
  pub cr3 : k'.cr3 ≡ get_dir k' (task_at k 1)
  pub user_pages :
      (j : ℕ)
      → j < num_pag_code + num_pag_data
      → k'.page_mem (entry_at (row k.at.pagusr_table 1) (pag_log_init_code + j))
        ≡ mapping (num_pag_kernel + 2 * j) (if ltb j num_pag_code then 0 else 1) 1
  pub other_pages :
      (p : ℕ)
      → p < total_pages
      → (p < pag_log_init_code) ⊎ (pag_log_init_code + (num_pag_code + num_pag_data) ≤ p)
      → k'.page_mem (entry_at (row k.at.pagusr_table 1) p) ≡ initial_entry (k.at.task - 4096) p
  pub frames : FreeFrom k'.phys_mem (num_pag_kernel + 2 * (num_pag_code + num_pag_data))

-- The first process runs, whatever the depth of its kernel stack, and no other task is ready.
pub Started-Turn :
    (cpu_idle : ℕ) (k k' : Kernel) (console : Console) (esp : ℕ)
    → QueuesApart k.at
    → Started cpu_idle k k'
    → task_at k 1 + 4 ≤ esp
    → esp ≤ k'.tss_esp0
    → Turn (record k' { esp = esp; console = console }) (task_at k 1) []
unfolding current
Started-Turn cpu_idle k k' console esp a s lo hi =
    let off = a.ready_off in
    record {
      now = omega (arith, a.aligned, s.tss);
      running = s.first.state;
      queue = subst (λ at. IsRing k'.links at.readyqueue []) (sym s.place) s.queues.ready;
      there = subst (λ at. at.readyqueue ≢ 0) (sym s.place) a.there;
      tasks = (omega (arith, a.aligned, s.first.quantum), tt);
      stacks = tt;
      distinct = (tt, tt);
      apart =
          subst (λ at. list_of (task_at k 1) ≢ at.readyqueue) (sym s.place)
            (λ e. omega (arith, off, e));
      budget = omega (arith, s.budget);
    }

-- The part of `init_kernel` behind `init_mm`.
pub init_kernel-Started :
    (cpu_idle : ℕ) (k : Kernel)
    → QueuesApart k.at
    → Started cpu_idle (init_mm k).1 (init_kernel cpu_idle k).1
unfolding init_kernel init_mm allocate_dir get_dir
init_kernel-Started cpu_idle k a = init_task1-Started cpu_idle (init_mm k).1 a

module _ (cpu_idle : ℕ) (k : Kernel) (a : QueuesApart k.at)
    (t : TablesApart k.at.dir_pages k.at.pagusr_table) where
  abbrev booted : Kernel
  booted = (init_kernel cpu_idle k).1

  abbrev tables : PhysMem × PageMem
  tables = first_tables (k.at.task - 4096) k.at.dir_pages k.at.pagusr_table k.phys_mem k.page_mem t

  tables_made : (booted.page_mem ≡ tables.1) × (booted.phys_mem ≡ tables.0)
  unfolding init_mm allocate_dir get_dir
  tables_made =
      let s = init_kernel-Started cpu_idle k a in
      let same =
        booted_dir (k.at.task - 4096) k.at.dir_pages k.at.pagusr_table k.phys_mem k.page_mem t in
      let at_row =
        ap (λ r. set_user_pages r ((init_mm k).1.phys_mem, (init_mm k).1.page_mem)) same in
      (s.pages ∙ ap (λ r. r.1) at_row, s.frames ∙ ap (λ r. r.0) at_row)

  pub init_kernel-HasTables : HasTables k booted
  unfolding init_mm allocate_dir get_dir get_pt
  init_kernel-HasTables =
      let s = init_kernel-Started cpu_idle k a in
      let (pages, frames) = tables_made in
      let guard = k.at.task - 4096 in
      let dirs = k.at.dir_pages in
      let table = k.at.pagusr_table in
      let dir : (booted.task (task_at k 1)).dir_pages_base_addr ≡ dirs + 4096 =
        s.first.dir ∙ ap (λ (l : Layout). l.dir_pages + 4096) s.place in
      record {
        table = rw (dir, pages) (first_dir_kept guard dirs table k.phys_mem k.page_mem t);
        cr3 = s.cr3 ∙ sym dir;
        user_pages = λ j h.
            ap (λ (q : PageMem). q (entry_at (row table 1) (pag_log_init_code + j))) pages
            ∙ first_user_page guard dirs table k.phys_mem k.page_mem t j h;
        other_pages = λ p h o.
            ap (λ (q : PageMem). q (entry_at (row table 1) p)) pages
            ∙ first_other_page guard dirs table k.phys_mem k.page_mem t p h o;
        frames =
            subst (λ q. FreeFrom q (num_pag_kernel + 2 * (num_pag_code + num_pag_data)))
              (sym frames)
              (set_user_pages-FreeFrom (row table 1) k.phys_mem
                (booted_tables guard dirs table k.phys_mem k.page_mem t));
      }

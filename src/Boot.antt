-- ===== src/Boot.antt =====
-- mm.c: `init_mm`, which sets up memory at boot.
use zeos_soa.Base.{ℕ, ◌-◌}
use zeos_soa.Mm.Frames.{init_frames}
use zeos_soa.Mm.Paging.{data_end, init_table_pages, init_dir_pages}
use zeos_soa.Kernel.{Kernel, allocate_dir, get_dir}

-- The result is what the global `heap_pointer` of mm.c gets. `protected_tasks` starts a page below
-- the task array. The paging flag of the processor is no part of the state.
unfoldable pub init_mm : Kernel → ℕ × Kernel
init_mm k =
    let k = record k {
      page_mem = init_table_pages (k.at.task - 4096) k.at.pagusr_table k.page_mem;
    } in
    let k = record k { phys_mem = init_frames k.phys_mem } in
    let k = record k { page_mem = init_dir_pages k.at.dir_pages k.at.pagusr_table k.page_mem } in
    let k = allocate_dir k k.at.task in (data_end, record k { cr3 = get_dir k k.at.task })

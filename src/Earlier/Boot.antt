-- ===== src/Earlier/Boot.antt =====
-- zeOSpparri/mm.c: `init_mm` and `setTSS` of the earlier kernel.
use zeos_soa.Base.{◌+◌, ◌-◌, ◌*◌, ℕ}
use zeos_soa.Mm.Frames.{init_frames}
use zeos_soa.Mm.Paging.{l_user_start, num_pag_data, init_dir_pages}
use zeos_soa.Descriptors.{Tss, kernel_ds, user_cs, user_ds, kernel_tss, initial_eflags, initial_esp}
use zeos_soa.Earlier.{Kernel, allocate_dir, get_dir}
use zeos_soa.Earlier.Mm.{init_table_pages}

-- `init_mm`, up to the switch to paging, which is the processor's.
unfoldable pub init_mm : Kernel → Kernel
init_mm k =
    let pages = init_table_pages k.at.pagusr_table k.page_mem in
    let k = record k {
      phys_mem = init_frames k.phys_mem;
      page_mem = init_dir_pages k.at.dir_pages k.at.pagusr_table pages;
    } in
    let k = allocate_dir k k.at.task in record k { cr3 = get_dir k k.at.task }

abbrev pub user_esp : ℕ
user_esp = l_user_start + num_pag_data * 0x1000 - 16

unfoldable pub set_tss : (task : ℕ) → Tss
set_tss task = record {
  previous_task_link = 0;
  esp0 = initial_esp task;
  ss0 = kernel_ds;
  esp1 = 0;
  ss1 = 0;
  esp2 = 0;
  ss2 = 0;
  cr3 = 0;
  eip = 0;
  e_flags = initial_eflags;
  eax = 0;
  ecx = 0;
  edx = 0;
  ebx = 0;
  esp = user_esp;
  ebp = user_esp;
  esi = 0;
  edi = 0;
  es = user_ds;
  cs = user_cs;
  ss = user_ds;
  ds = user_ds;
  fs = 0;
  gs = 0;
  ldt_segment_selector = kernel_tss;
  debug_trap = 0;
  io_map_base_address = 0;
}

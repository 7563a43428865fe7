-- ===== src/Mm/Paging.antt =====
-- include/types.h, include/mm_address.h, mm.c: page table entries and the tables that hold them.
pub mod Init
pub mod Free
pub mod User
use zeos_soa.Base.{ℕ, zero, suc, ◌+◌, ◌-◌, ◌*◌, ◌/◌, ◌%◌, ◌^◌, update}
use zeos_soa.Mm.Frames.{PhysMem, alloc_frame, free_frame, num_pag_kernel, total_pages}

abbrev pub page_size : ℕ
page_size = 0x1000

abbrev pub num_pag_code : ℕ
num_pag_code = 8

abbrev pub num_pag_data : ℕ
num_pag_data = 20

abbrev pub l_user_start : ℕ
l_user_start = 0x100000

abbrev pub pag_log_init_code : ℕ
pag_log_init_code = l_user_start / 2 ^ 12

abbrev pub pag_log_init_data : ℕ
pag_log_init_data = pag_log_init_code + num_pag_code

abbrev pub data_end : ℕ
data_end = l_user_start + num_pag_code * page_size + num_pag_data * page_size

abbrev pub init_heap : ℕ
init_heap = data_end + num_pag_data * page_size

-- `page_table_entry`, by its bit fields.
pub record Entry : Type 0 where
  pub present : ℕ
  pub rw_bit : ℕ
  pub user : ℕ
  pub write_t : ℕ
  pub cache_d : ℕ
  pub accessed : ℕ
  pub dirty : ℕ
  pub ps_pat : ℕ
  pub global : ℕ
  pub avail : ℕ
  pub pbase_addr : ℕ

-- The other member of the union: the fields as one 32-bit word, lowest first.
unfoldable pub entry_word : Entry → ℕ
entry_word e =
    e.present
    + 2 * e.rw_bit
    + 4 * e.user
    + 8 * e.write_t
    + 16 * e.cache_d
    + 32 * e.accessed
    + 64 * e.dirty
    + 128 * e.ps_pat
    + 256 * e.global
    + 512 * e.avail
    + 4096 * e.pbase_addr

-- `entry = 0`.
abbrev pub zero_entry : Entry
zero_entry = record {
  present = 0;
  rw_bit = 0;
  user = 0;
  write_t = 0;
  cache_d = 0;
  accessed = 0;
  dirty = 0;
  ps_pat = 0;
  global = 0;
  avail = 0;
  pbase_addr = 0;
}

-- Every page table entry in memory, by its address.
abbrev pub PageMem : Type 0
PageMem = ℕ → Entry

-- The address of `PT[page]`.
abbrev pub entry_at : ℕ → ℕ → ℕ
entry_at pt page = pt + 4 * page

-- An entry with the four fields that the kernel sets, after `entry = 0`.
abbrev pub mapping : (frame rw_bit user : ℕ) → Entry
mapping frame rw_bit user = record zero_entry {
  pbase_addr = frame % 2 ^ 20;
  rw_bit = rw_bit;
  user = user;
  present = 1;
}

unfoldable pub set_ss_pag : PageMem → (pt page frame : ℕ) → PageMem
set_ss_pag pm pt page frame = update pm (entry_at pt page) (mapping frame 1 1)

unfoldable pub del_ss_pag : PageMem → (pt page : ℕ) → PageMem
del_ss_pag pm pt page = update pm (entry_at pt page) zero_entry

unfoldable pub get_frame : PageMem → (pt page : ℕ) → ℕ
get_frame pm pt page = (pm (entry_at pt page)).pbase_addr

-- One loop of `set_user_pages`: the rounds left, the page, and the access.
unfoldable pub user_pages_loop : ℕ → (pt page rw_bit : ℕ) → PhysMem × PageMem → PhysMem × PageMem
user_pages_loop zero pt page rw_bit s = s
user_pages_loop (suc n) pt page rw_bit (m, pm) =
    let (f, m') = alloc_frame m in
    user_pages_loop n pt (page + 1) rw_bit (m', update pm (entry_at pt page) (mapping f rw_bit 1))

-- `set_user_pages` on the table at `pt`: code pages are read-only.
unfoldable pub set_user_pages : ℕ → PhysMem × PageMem → PhysMem × PageMem
set_user_pages pt s =
    user_pages_loop num_pag_data pt pag_log_init_data 1
      (user_pages_loop num_pag_code pt pag_log_init_code 0 s)

unfoldable pub free_pages_loop : ℕ → (pt page : ℕ) → PhysMem × PageMem → PhysMem × PageMem
free_pages_loop zero pt page s = s
free_pages_loop (suc n) pt page (m, pm) =
    free_pages_loop n pt (page + 1)
      (free_frame m (get_frame pm pt page), update pm (entry_at pt page) zero_entry)

unfoldable pub free_user_pages : ℕ → PhysMem × PageMem → PhysMem × PageMem
free_user_pages pt s = free_pages_loop num_pag_data pt pag_log_init_data s

-- The loops of `init_table_pages` over one table.
unfoldable pub reset_loop : ℕ → (pt i : ℕ) → PageMem → PageMem
reset_loop zero pt i pm = pm
reset_loop (suc n) pt i pm = reset_loop n pt (i + 1) (update pm (entry_at pt i) zero_entry)

abbrev pub kernel_entry : ℕ → Entry → Entry
kernel_entry i e = record e { pbase_addr = i % 2 ^ 20; rw_bit = 1; present = 1 }

unfoldable pub kernel_loop : ℕ → (pt i : ℕ) → PageMem → PageMem
kernel_loop zero pt i pm = pm
kernel_loop (suc n) pt i pm =
    kernel_loop n pt (i + 1) (update pm (entry_at pt i) (kernel_entry i (pm (entry_at pt i))))

unfoldable pub clear_present : PageMem → ℕ → PageMem
clear_present pm a = update pm a (record (pm a) { present = 0 })

-- One round of the outer loop: `guard` is the address of `protected_tasks`, whose pages 0 and 11
-- stay inaccessible.
unfoldable pub init_table : (guard pt : ℕ) → PageMem → PageMem
init_table guard pt pm =
    let pm = reset_loop total_pages pt 0 pm in
    let pm = kernel_loop (num_pag_kernel - 1) pt 1 pm in
    let pm = clear_present pm (entry_at pt (guard / 2 ^ 12)) in
    clear_present pm (entry_at pt ((guard + 11 * page_size) / 2 ^ 12))

-- `pagusr_table[j]`: a row has TOTAL_PAGES entries of four bytes.
abbrev pub row : (table j : ℕ) → ℕ
row table j = table + 4096 * j

unfoldable pub init_tables_loop : ℕ → (guard table j : ℕ) → PageMem → PageMem
init_tables_loop zero guard table j pm = pm
init_tables_loop (suc n) guard table j pm =
    init_tables_loop n guard table (j + 1) (init_table guard (row table j) pm)

abbrev pub nr_tasks : ℕ
nr_tasks = 10

unfoldable pub init_table_pages : (guard pagusr_table : ℕ) → PageMem → PageMem
init_table_pages guard pagusr_table pm = init_tables_loop nr_tasks guard pagusr_table 0 pm

unfoldable pub init_dirs_loop : ℕ → (dir_pages pagusr_table i : ℕ) → PageMem → PageMem
init_dirs_loop zero dir_pages pagusr_table i pm = pm
init_dirs_loop (suc n) dir_pages pagusr_table i pm =
    init_dirs_loop n dir_pages pagusr_table (i + 1)
      (update pm (entry_at (row dir_pages i) 0) (mapping (row pagusr_table i / 2 ^ 12) 1 1))

unfoldable pub init_dir_pages : (dir_pages pagusr_table : ℕ) → PageMem → PageMem
init_dir_pages dir_pages pagusr_table pm = init_dirs_loop nr_tasks dir_pages pagusr_table 0 pm

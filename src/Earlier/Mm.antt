-- ===== src/Earlier/Mm.antt =====
-- zeOSpparri/mm.c, include/mm_address.h, utils.c: the memory of the earlier kernel, where the data
-- of a process lies below its code.
pub mod User
use zeos_soa.Base.{
  ℕ, zero, suc, ◌+◌, ◌-◌, ◌/◌, ◌^◌, Bool, true, false, ◌&&◌, ◌==◌, leb, ltb, if◌then◌else◌, add32,
}
use zeos_soa.Mm.Frames.{PhysMem, num_pag_kernel, total_pages}
use zeos_soa.Mm.Paging.{
  PageMem, l_user_start, num_pag_code, num_pag_data, nr_tasks, user_pages_loop, free_pages_loop,
  reset_loop, kernel_loop, row,
}
use zeos_soa.Utils.{verify_write}

abbrev pub pag_log_init_data : ℕ
pag_log_init_data = l_user_start / 2 ^ 12

abbrev pub pag_log_init_code : ℕ
pag_log_init_code = pag_log_init_data + num_pag_data

abbrev pub user_first_page : ℕ
user_first_page = l_user_start / 2 ^ 12

unfoldable pub set_user_pages : ℕ → PhysMem × PageMem → PhysMem × PageMem
set_user_pages pt s =
    user_pages_loop num_pag_data pt pag_log_init_data 1
      (user_pages_loop num_pag_code pt pag_log_init_code 0 s)

unfoldable pub free_user_pages : ℕ → PhysMem × PageMem → PhysMem × PageMem
free_user_pages pt s = free_pages_loop num_pag_data pt pag_log_init_data s

-- One round of the outer loop of `init_table_pages`.
unfoldable pub init_table : ℕ → PageMem → PageMem
init_table pt pm = kernel_loop (num_pag_kernel - 1) pt 1 (reset_loop total_pages pt 0 pm)

unfoldable pub init_tables_loop : ℕ → (table j : ℕ) → PageMem → PageMem
init_tables_loop zero table j pm = pm
init_tables_loop (suc n) table j pm = init_tables_loop n table (j + 1) (init_table (row table j) pm)

unfoldable pub init_table_pages : ℕ → PageMem → PageMem
init_table_pages pagusr_table pm = init_tables_loop nr_tasks pagusr_table 0 pm

-- `case VERIFY_WRITE` has no `break`.
unfoldable pub access_ok : (type addr size : ℕ) → Bool
access_ok type addr size =
    let addr_ini = addr / 2 ^ 12 in
    let addr_fin = add32 addr size / 2 ^ 12 in
    if ltb addr_fin addr_ini
    then false
    else if type == verify_write
        && (leb user_first_page addr_ini && leb addr_fin (user_first_page + num_pag_data))
    then true
    else leb user_first_page addr_ini
      && leb addr_fin (user_first_page + num_pag_code + num_pag_data)

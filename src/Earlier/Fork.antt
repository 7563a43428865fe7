-- ===== src/Earlier/Fork.antt =====
-- zeOSpparri/sys.c: `sys_fork` of the earlier kernel.
pub mod Kids
use zeos_soa.Base.{
  ℕ, zero, suc, ◌+◌, ◌-◌, ◌*◌, Bool, true, false, ◌&&◌, ◌==◌, leb, ltb, if◌then◌else◌, add32,
  update, Option, none, some, ◌>>=◌, List, [], ◌∷◌,
}
use zeos_soa.Errno.{enomem}
use zeos_soa.KernelList.{init_list_head, list_add_tail, list_del, list_empty, list_first}
use zeos_soa.Mm.Frames.{PhysMem, num_pag_kernel, alloc_frame}
use zeos_soa.Mm.Paging.{num_pag_code, num_pag_data, entry_at, set_ss_pag, del_ss_pag, get_frame}
use zeos_soa.Kernel.{st_ready, kernel_stack_size, stack_at}
use zeos_soa.Earlier.{
  Kernel, list_head_to_task_struct, list_of, kids_of, set_task, set_links, current, get_dir, get_pt,
  allocate_dir,
}
use zeos_soa.Earlier.Mm.{pag_log_init_code, pag_log_init_data}

-- `copy_data(current(), new_kid, KERNEL_STACK_SIZE*4)`: the struct, its two nodes and the words of
-- the kernel stack.
unfoldable pub copy_union : Kernel → (parent kid : ℕ) → Kernel
copy_union k parent kid = record k {
  task = update k.task kid (k.task parent);
  links = record {
    next =
        update (update k.links.next (list_of kid) (k.links.next (list_of parent))) (kids_of kid)
          (k.links.next (kids_of parent));
    prev =
        update (update k.links.prev (list_of kid) (k.links.prev (list_of parent))) (kids_of kid)
          (k.links.prev (kids_of parent));
  };
  word = λ a. if leb kid a && ltb a (kid + 4096) then k.word (parent + (a - kid)) else k.word a;
}

-- `new_ph_pag`, and the map of frames after it. The test for a frame that was not found compares the
-- array itself with 0, so it never holds.
unfoldable pub new_frames_loop : ℕ → PhysMem → List ℕ × PhysMem
new_frames_loop zero m = ([], m)
new_frames_loop (suc n) m =
    let (f, m') = alloc_frame m in let (fs, m'') = new_frames_loop n m' in (f ∷ fs, m'')

-- The kid shares the parent's frames of `n` pages from `page` on.
unfoldable pub inherit_loop : ℕ → (kid_pt dad_pt page : ℕ) → Kernel → Kernel
inherit_loop zero kid_pt dad_pt page k = k
inherit_loop (suc n) kid_pt dad_pt page k =
    inherit_loop n kid_pt dad_pt (page + 1)
      (record k { page_mem = set_ss_pag k.page_mem kid_pt page (get_frame k.page_mem dad_pt page) })

-- The new frames become the kid's data pages.
unfoldable pub data_loop : List ℕ → (kid_pt page : ℕ) → Kernel → Kernel
data_loop [] kid_pt page k = k
data_loop (f ∷ fs) kid_pt page k =
    data_loop fs kid_pt (page + 1) (record k { page_mem = set_ss_pag k.page_mem kid_pt page f })

-- `copy_data` of one page; `none` is a page fault in the kernel.
unfoldable pub copy_page : (pt from to : ℕ) → Kernel → Option Kernel
copy_page pt from to k =
    let source = k.page_mem (entry_at pt from) in
    let target = k.page_mem (entry_at pt to) in
    if source.present == 1 && target.present == 1
    then some (record k {
      frame_data = update k.frame_data target.pbase_addr (k.frame_data source.pbase_addr);
    })
    else none

-- The first page behind the process's own.
abbrev pub diff : ℕ
diff = num_pag_code + num_pag_data + num_pag_kernel

-- The loop that copies the data, each page through a page that the parent borrows.
unfoldable pub copy_loop : List ℕ → (dad_pt pag : ℕ) → Kernel → Option Kernel
copy_loop [] dad_pt pag k = some k
copy_loop (f ∷ fs) dad_pt pag k = do
  k' ←
      copy_page dad_pt (num_pag_kernel + pag) (pag + diff)
        (record k { page_mem = set_ss_pag k.page_mem dad_pt (pag + diff) f })
  copy_loop fs dad_pt (pag + 1)
      (record k' { page_mem = del_ss_pag k'.page_mem dad_pt (pag + diff) })

-- From the flush of the translations to the end: the fields of the kid, its place among the parent's
-- children, the two words on its stack, and its place in the ready queue.
unfoldable pub start_kid : (parent kid ret_from_fork : ℕ) → Kernel → ℕ × Kernel
start_kid parent kid ret_from_fork k =
    let pid = k.sum_pid in
    let k = record k { cr3 = get_dir k parent; sum_pid = add32 k.sum_pid 1 } in
    let k = set_task k kid (record (k.task kid) {
      pid = pid;
      dad = parent;
      status = st_ready;
      quantum = 1000;
      pending_unblocks = 0;
    }) in
    let k = set_links k (init_list_head k.links (kids_of kid)) in
    let k = set_links k (list_add_tail k.links (list_of kid) (kids_of parent)) in
    let top = stack_at kid (kernel_stack_size - 19) in
    let k = record k { word = update (update k.word top 0) (top + 4) ret_from_fork } in
    let k = set_task k kid (record (k.task kid) { kernel_esp = top }) in
    (pid, set_links k (list_add_tail k.links (list_of kid) k.at.readyqueue))

unfoldable pub sys_fork : (ret_from_fork : ℕ) → Kernel → Option (ℕ × Kernel)
sys_fork ret_from_fork k =
    let parent = current k in
    let get_h = list_first k.links k.at.freequeue in
    let kid = list_head_to_task_struct get_h in
    let k1 = allocate_dir (copy_union (set_links k (list_del k.links get_h)) parent kid) kid in
    let (frames, phys) = new_frames_loop num_pag_data k1.phys_mem in
    let k2 = record k1 { phys_mem = phys } in
    let kid_pt = get_pt k2 kid in
    let dad_pt = get_pt k2 parent in
    let k3 = inherit_loop num_pag_code kid_pt dad_pt pag_log_init_code k2 in
    let k4 = inherit_loop num_pag_kernel kid_pt dad_pt 0 k3 in
    let k5 = data_loop frames kid_pt pag_log_init_data k4 in
    elim (list_empty k.links k.at.freequeue) [
      | true ↦ some (enomem, k)
      | false ↦ do k6 ← copy_loop frames dad_pt 0 k5; some (start_kid parent kid ret_from_fork k6)
    ]

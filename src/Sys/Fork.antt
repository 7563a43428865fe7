-- ===== src/Sys/Fork.antt =====
-- sys.c: `sys_fork`.
pub mod Copy
pub mod Pages
pub mod Space
pub mod Child
pub mod Frames
pub mod Prepare
pub mod Memory
pub mod Queues
pub mod Start
pub mod Process
pub mod Undo
pub mod Refusal
use zeos_soa.Base.{
  ℕ, zero, suc, ◌+◌, ◌/◌, Bool, true, false, ◌&&◌, ◌==◌, ltb, Option, none, some, ◌>>=◌,
  if◌then◌else◌, neg, add32, sub32, update,
}
use zeos_soa.Errno.{eagain, enomem}
use zeos_soa.KernelList.{list_add_tail, list_empty}
use zeos_soa.Mm.Frames.{num_pag_kernel, alloc_frame}
use zeos_soa.Mm.Paging.{
  page_size, num_pag_code, num_pag_data, pag_log_init_code, pag_log_init_data, entry_at, set_ss_pag,
  del_ss_pag, get_frame, free_pages_loop,
}
use zeos_soa.Kernel.{
  Kernel, st_ready, list_of, current, set_task, set_links, init_stats, allocate_dir, get_dir,
  get_pt,
}
use zeos_soa.Sched.{num_sem, take_free, init_sems_loop}
use zeos_soa.Sys.{copy_union}
use zeos_soa.Sys.Heap.{heap_pointer}

-- The allocation of the child's data pages, with the rounds left; `false` when the frames run out.
unfoldable pub data_pages_loop : ℕ → (pt pag : ℕ) → Kernel → Bool × ℕ × Kernel
data_pages_loop zero pt pag k = (true, pag, k)
data_pages_loop (suc n) pt pag k =
    let (f, phys) = alloc_frame k.phys_mem in
    let rest = data_pages_loop n pt (pag + 1) (record k {
      phys_mem = phys;
      page_mem = set_ss_pag k.page_mem pt (pag_log_init_data + pag) f;
    }) in
    if f == neg 1 then (false, pag, record k { phys_mem = phys }) else rest

-- Frames ran out at page `pag`: the pages below it are given back, and the task struct.
unfoldable pub undo_fork : (pt pag l : ℕ) → Kernel → Kernel
undo_fork pt pag l k =
    let (phys, pages) = free_pages_loop pag pt pag_log_init_data (k.phys_mem, k.page_mem) in
    record k { phys_mem = phys; page_mem = pages; links = list_add_tail k.links l k.at.freequeue }

-- The child shares the parent's frames of `n` pages from `pag` on.
unfoldable pub share_loop : ℕ → (parent_pt process_pt pag : ℕ) → Kernel → Kernel
share_loop zero parent_pt process_pt pag k = k
share_loop (suc n) parent_pt process_pt pag k =
    share_loop n parent_pt process_pt (pag + 1) (record k {
      page_mem = set_ss_pag k.page_mem process_pt pag (get_frame k.page_mem parent_pt pag);
    })

-- `copy_data` of one page, between pages that the table at `pt` maps. Where it does not map one of
-- them, an access is a page fault in the kernel.
unfoldable pub copy_page : (pt from to : ℕ) → Kernel → Option Kernel
copy_page pt from to k =
    let source = k.page_mem (entry_at pt from) in
    let target = k.page_mem (entry_at pt to) in
    if source.present == 1 && target.present == 1
    then some (record k {
      frame_data = update k.frame_data target.pbase_addr (k.frame_data source.pbase_addr);
    })
    else none

-- One data page: the child's frame is mapped in the parent for the time of the copy.
unfoldable pub copy_data_page : (parent_pt process_pt pag : ℕ) → Kernel → Option Kernel
copy_data_page parent_pt process_pt pag k = do
  k' ← copy_page parent_pt pag (pag + num_pag_data) (record k {
    page_mem =
        set_ss_pag k.page_mem parent_pt (pag + num_pag_data) (get_frame k.page_mem process_pt pag);
  })
  some (record k' { page_mem = del_ss_pag k'.page_mem parent_pt (pag + num_pag_data) })

unfoldable pub copy_pages_loop : ℕ → (parent_pt process_pt pag : ℕ) → Kernel → Option Kernel
copy_pages_loop zero parent_pt process_pt pag k = some k
copy_pages_loop (suc n) parent_pt process_pt pag k = do
  k' ← copy_data_page parent_pt process_pt pag k
  copy_pages_loop n parent_pt process_pt (pag + 1) k'

-- One page of the parent's heap, at `pointer`: its frame goes to the child's page `i + 20`.
unfoldable pub heap_page : (parent_pt process_pt i pointer : ℕ) → Kernel → Option Kernel
heap_page parent_pt process_pt i pointer k = do
  k' ← copy_page parent_pt i (i + num_pag_data) (record k {
    page_mem =
        set_ss_pag k.page_mem process_pt (i + num_pag_data)
          (get_frame k.page_mem parent_pt (pointer / page_size));
  })
  some (record k' { page_mem = del_ss_pag k'.page_mem parent_pt (i + num_pag_data) })

-- The inner loop over a region of twenty pages, and the outer loop, whose rounds are bounded by the
-- pages of the address space.
unfoldable pub heap_region_loop :
    ℕ → (parent_pt process_pt i pointer end : ℕ) → Kernel → Option (ℕ × Kernel)
heap_region_loop zero parent_pt process_pt i pointer end k = some (pointer, k)
heap_region_loop (suc n) parent_pt process_pt i pointer end k = elim (ltb pointer end) [
  | true ↦ do
    k' ← heap_page parent_pt process_pt i pointer k
    heap_region_loop n parent_pt process_pt (i + 1) (add32 pointer page_size) end k'
  | false ↦ some (pointer, k)
]

unfoldable pub heap_copy_loop : ℕ → (parent_pt process_pt pointer end : ℕ) → Kernel → Option Kernel
heap_copy_loop zero parent_pt process_pt pointer end k = some k
heap_copy_loop (suc n) parent_pt process_pt pointer end k = elim (ltb pointer end) [
  | true ↦ do
    (pointer', k') ←
        heap_region_loop num_pag_data parent_pt process_pt (num_pag_kernel + num_pag_code) pointer
          end k
    heap_copy_loop n parent_pt process_pt pointer' end k'
  | false ↦ some k
]

-- The address space has 1048576 pages, and a round of the outer loop copies one at least.
abbrev pub region_fuel : ℕ
region_fuel = 1048577

-- The words that the child finds on its kernel stack, its state, and its place in the ready queue.
-- `ebp` is the frame pointer of `sys_fork`.
unfoldable pub start_child : (parent child ret_from_fork : ℕ) → Kernel → ℕ × Kernel
start_child parent child ret_from_fork k =
    let pid = add32 k.global_pid 1 in
    let ebp = add32 (sub32 k.ebp parent) child in
    let k = record k { global_pid = pid; cr3 = get_dir k parent } in
    let temp_ebp = k.word ebp in
    let k = record k { word = update k.word ebp ret_from_fork } in
    let k = record k { word = update k.word (sub32 ebp 4) temp_ebp } in
    let k =
      set_task k child
        (record (k.task child) { pid = pid; state = st_ready; register_esp = sub32 ebp 4 }) in
    let k = init_stats k child in
    (pid, set_links k (list_add_tail k.links (list_of child) k.at.readyqueue))

-- The copies of the pages, once the child has frames of its own.
unfoldable pub copy_space : (parent_pt process_pt parent : ℕ) → Kernel → Option Kernel
copy_space parent_pt process_pt parent k = do
  k' ← copy_pages_loop num_pag_data parent_pt process_pt (num_pag_kernel + num_pag_code) (
      share_loop num_pag_code parent_pt process_pt pag_log_init_code
        (share_loop num_pag_kernel parent_pt process_pt 0 k))
  heap_copy_loop region_fuel parent_pt process_pt (k'.task parent).heap_start_proc
      (heap_pointer k' parent) k'

-- `none` is a page fault in the kernel.
unfoldable pub sys_fork : (ret_from_fork : ℕ) → Kernel → Option (ℕ × Kernel)
sys_fork ret_from_fork k =
    let parent = current k in
    let (child, k1) = take_free k in
    let k2 = copy_union k1 parent child in
    let k3 = allocate_dir (init_sems_loop num_sem (k2.task child).semafors 0 k2) child in
    let process_pt = get_pt k3 child in
    let (enough, pag, k4) = data_pages_loop num_pag_data process_pt 0 k3 in
    elim (list_empty k.links k.at.freequeue) [
      | true ↦ some (enomem, k)
      | false ↦ elim enough [
        | false ↦ some (eagain, undo_fork process_pt pag (list_of child) k4)
        | true ↦ do
          k5 ← copy_space (get_pt k4 parent) process_pt parent k4
          some (start_child parent child ret_from_fork k5)
      ]
    ]

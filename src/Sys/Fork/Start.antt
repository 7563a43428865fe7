-- ===== src/Sys/Fork/Start.antt =====
-- What the last part of `sys_fork` does to the fields of the state.
use zeos_soa.Base.{ℕ, ◌≡◌, refl, add32, arith}
use zeos_soa.Kernel.{Kernel, st_ready, get_ticks, init_stats}
use zeos_soa.Sys.Fork.{start_child}

-- The last part of `sys_fork` leaves the memory as it is.
pub memory-start_child :
    (parent child ret : ℕ) (k : Kernel)
    → ((start_child parent child ret k).1.page_mem ≡ k.page_mem)
      × ((start_child parent child ret k).1.phys_mem ≡ k.phys_mem)
      × ((start_child parent child ret k).1.frame_data ≡ k.frame_data)
unfolding start_child init_stats get_ticks
memory-start_child parent child ret k = (refl, refl, refl)

pub child-start_child :
    (parent child ret : ℕ) (k : Kernel)
    → let r = start_child parent child ret k in
      (r.0 ≡ add32 k.global_pid 1)
      × (r.1.global_pid ≡ r.0)
      × ((r.1.task child).pid ≡ r.0)
      × ((r.1.task child).state ≡ st_ready)
      × ((r.1.task child).dir_pages_base_addr ≡ (k.task child).dir_pages_base_addr)
unfolding start_child init_stats get_ticks
child-start_child parent child ret k = (refl, refl, ground arith, ground arith, ground arith)

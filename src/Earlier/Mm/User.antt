-- ===== src/Earlier/Mm/User.antt =====
-- `set_user_pages` of the earlier kernel.
use zeos_soa.Base.{ℕ, ◌+◌, ◌*◌, ◌<◌, ◌≡◌, ◌∙◌, arith}
use zeos_soa.Mm.Frames.{PhysMem, num_pag_kernel, init_frames}
use zeos_soa.Mm.Paging.{PageMem, mapping, entry_at, num_pag_code, num_pag_data, user_pages_loop}
use zeos_soa.Mm.Paging.User.{
  FreeFrom, init_frames-FreeFrom, user_pages_loop_lem, user_pages_loop_frames,
  user_pages_loop_beyond,
}
use zeos_soa.Earlier.Mm.{pag_log_init_code, pag_log_init_data, set_user_pages}

-- At boot, with the frames just initialised, `set_user_pages` of the earlier kernel maps its eight
-- code pages, which lie behind the data there, read-only to the frames 256, 258 and so on, and the
-- twenty data pages before them writable to the even frames that follow.
pub earlier_user_pages_boot :
    (m : PhysMem) (pm : PageMem) (pt j : ℕ)
    → (j < num_pag_code
        → (set_user_pages pt (init_frames m, pm)).1 (entry_at pt (pag_log_init_code + j))
          ≡ mapping (num_pag_kernel + 2 * j) 0 1)
      × (j < num_pag_data
          → (set_user_pages pt (init_frames m, pm)).1 (entry_at pt (pag_log_init_data + j))
            ≡ mapping (num_pag_kernel + 2 * num_pag_code + 2 * j) 1 1)
unfolding set_user_pages
earlier_user_pages_boot m pm pt j = (
  λ l.
      user_pages_loop_beyond num_pag_data pt pag_log_init_data 1 m1 pm1
        (entry_at pt (pag_log_init_code + j)) (omega arith)
      ∙ user_pages_loop_lem num_pag_code pt pag_log_init_code 0 (init_frames m) pm num_pag_kernel j
          (init_frames-FreeFrom m) (omega arith) l,
  λ l.
      user_pages_loop_lem num_pag_data pt pag_log_init_data 1 m1 pm1
        (num_pag_kernel + 2 * num_pag_code) j h1 (omega arith) l,
)
  where
    m1 : PhysMem
    m1 = (user_pages_loop num_pag_code pt pag_log_init_code 0 (init_frames m, pm)).0

    pm1 : PageMem
    pm1 = (user_pages_loop num_pag_code pt pag_log_init_code 0 (init_frames m, pm)).1

    h1 : FreeFrom m1 (num_pag_kernel + 2 * num_pag_code)
    h1 =
        user_pages_loop_frames num_pag_code pt pag_log_init_code 0 (init_frames m) pm num_pag_kernel
          (init_frames-FreeFrom m) (omega arith)

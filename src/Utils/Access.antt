-- ===== src/Utils/Access.antt =====
-- What `access_ok` of utils.c accepts.
use zeos_soa.Base.{ℕ, ◌+◌, ◌-◌, ◌%◌, ◌^◌, ◌≤◌, ◌<◌, ◌≡◌, true, none, arith}
use zeos_soa.Mm.Paging.{page_size, l_user_start, data_end}
use zeos_soa.Utils.{verify_read, verify_write, HeapBounds, in_user_pages, in_heap, access_ok}

-- Without a task, and for a size below 2 GB, every byte of an accepted block lies in the user's
-- pages or in the one page behind them, and the block does not wrap round the address space.
pub access_ok_sound :
    (type addr size i : ℕ)
    → addr < 2 ^ 32
    → size < 2 ^ 31
    → access_ok type addr size none ≡ true
    → i < size
    → (l_user_start ≤ addr) × (addr + size < 2 ^ 32) × (addr + i < data_end + page_size)
unfolding access_ok in_user_pages in_heap
access_ok_sound type addr size i ha hs ok hi = ground arith

-- A block inside the user's code and data is accepted.
pub access_ok_complete :
    (type addr size : ℕ) (task : HeapBounds)
    → l_user_start ≤ addr
    → addr + size ≤ data_end
    → access_ok type addr size task ≡ true
unfolding access_ok in_user_pages
access_ok_complete type addr size task h k = ground arith

-- The kind of access makes no difference: a block of the read-only code pages is accepted for
-- writing exactly when it is accepted for reading.
pub access_ok-ignores_type :
    (addr size : ℕ) (task : HeapBounds)
    → access_ok verify_write addr size task ≡ access_ok verify_read addr size task
unfolding access_ok in_user_pages
access_ok-ignores_type addr size task = ground arith

-- A size so large that the block wraps round the whole address space back into its first page is
-- not noticed: it is accepted wherever the block's first page is a user page.
pub access_ok-wraps :
    (type addr back : ℕ) (task : HeapBounds)
    → l_user_start ≤ addr
    → addr < data_end
    → 0 < back
    → back ≤ addr % page_size
    → access_ok type addr (2 ^ 32 - back) task ≡ true
unfolding access_ok in_user_pages
access_ok-wraps type addr back task lo hi pos small = ground arith

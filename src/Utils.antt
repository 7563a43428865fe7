-- ===== src/Utils.antt =====
-- utils.c: the check of user pointers, and the copy loops.
pub mod Access
pub mod Copy
use zeos_soa.Base.{
  ℕ, zero, suc, ◌+◌, ◌-◌, ◌*◌, ◌/◌, ◌%◌, ◌^◌, Bool, true, false, ◌&&◌, Option, none, some, ◌==◌,
  ltb, leb, if◌then◌else◌, add32, update,
}
use zeos_soa.Mm.Paging.{num_pag_code, num_pag_data, pag_log_init_code}

abbrev pub verify_read : ℕ
verify_read = 0

abbrev pub verify_write : ℕ
verify_write = 1

abbrev pub user_first_page : ℕ
user_first_page = pag_log_init_code

-- The heap bounds of the `task` argument, which may be NULL.
abbrev pub HeapBounds : Type 0
HeapBounds = Option (ℕ × ℕ)

-- `case VERIFY_WRITE` has no `break`: where its test fails, the default's is made.
unfoldable pub in_user_pages : (type addr_ini addr_fin : ℕ) → Bool
in_user_pages type addr_ini addr_fin =
    if type == verify_write
      && (leb (user_first_page + num_pag_code) addr_ini
          && leb addr_fin (user_first_page + num_pag_code + num_pag_data))
    then true
    else leb user_first_page addr_ini
      && leb addr_fin (user_first_page + num_pag_code + num_pag_data)

unfoldable pub in_heap : HeapBounds → (addr_ini addr_fin : ℕ) → Bool
in_heap none addr_ini addr_fin = false
in_heap (some (start, end)) addr_ini addr_fin =
    leb (start / 2 ^ 12) addr_ini && leb addr_fin (end / 2 ^ 12)

unfoldable pub access_ok : (type addr size : ℕ) → HeapBounds → Bool
access_ok type addr size task =
    let addr_ini = addr / 2 ^ 12 in
    let addr_fin = add32 addr size / 2 ^ 12 in
    if ltb addr_fin addr_ini
    then false
    else if in_user_pages type addr_ini addr_fin
    then true
    else in_heap task addr_ini addr_fin

-- Memory, byte by byte.
abbrev pub Bytes : Type 0
Bytes = ℕ → ℕ

-- `*q++ = *p++` on `DWord`s: four bytes are read, then written.
unfoldable pub copy_word : Bytes → (p q : ℕ) → Bytes
copy_word m p q =
    update (update (update (update m q (m p)) (q + 1) (m (p + 1))) (q + 2) (m (p + 2))) (q + 3)
      (m (p + 3))

-- The loops of `copy_data`, on fuel.
unfoldable pub copy_bytes_loop : ℕ → Bytes → (p q size : ℕ) → Bytes
copy_bytes_loop zero m p q size = m
copy_bytes_loop (suc n) m p q size =
    let rest = copy_bytes_loop n (update m q (m p)) (p + 1) (q + 1) (size - 1) in
    if ltb 0 size then rest else m

unfoldable pub copy_words_loop : ℕ → Bytes → (p q size : ℕ) → Bytes
copy_words_loop zero m p q size = copy_bytes_loop size m p q size
copy_words_loop (suc n) m p q size =
    let rest = copy_words_loop n (copy_word m p q) (p + 4) (q + 4) (size - 4) in
    let tail = copy_bytes_loop size m p q size in if ltb 4 size then rest else tail

-- `copy_data`; `copy_from_user` and `copy_to_user` have the same body and return 0. The size is
-- not negative, and each round of the loops takes at least one byte off it.
unfoldable pub copy_data : Bytes → (start dest size : ℕ) → Bytes
copy_data m start dest size = copy_words_loop size m start dest size

unfoldable pub memset_loop : ℕ → Bytes → (s c i : ℕ) → Bytes
memset_loop zero m s c i = m
memset_loop (suc n) m s c i = memset_loop n (update m (s + i) (c % 256)) s c (i + 1)

unfoldable pub memset : Bytes → (s c size : ℕ) → Bytes
memset m s c size = memset_loop size m s c 0

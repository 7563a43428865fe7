-- ===== src/KernelList.antt =====
-- list.c: circular doubly linked lists threaded through `struct list_head` objects.
pub mod Ring
pub mod Insert
pub mod Delete
use zeos_soa.Base.{ℕ, Bool, ◌==◌, update}

-- The address of a `struct list_head`.
abbrev pub Ptr : Type 0
Ptr = ℕ

-- Every `struct list_head` in memory: the two fields of the one at each address.
pub record Links : Type 0 where
  pub next : Ptr → Ptr
  pub prev : Ptr → Ptr

-- `p->next = v` and `p->prev = v`.
unfoldable pub set_next : Links → Ptr → Ptr → Links
set_next m p v = record m { next = update m.next p v }

unfoldable pub set_prev : Links → Ptr → Ptr → Links
set_prev m p v = record m { prev = update m.prev p v }

unfoldable pub init_list_head : Links → Ptr → Links
unfolding set_next set_prev
init_list_head m l = set_prev (set_next m l l) l l

-- `__list_add`: the four writes in the order of the source.
unfoldable pub list_add_between : Links → (new prev next : Ptr) → Links
unfolding set_next set_prev
list_add_between m new prev next =
    set_next (set_prev (set_next (set_prev m next new) new next) new prev) prev new

unfoldable pub list_add : Links → (new head : Ptr) → Links
unfolding list_add_between
list_add m new head = list_add_between m new head (m.next head)

unfoldable pub list_add_tail : Links → (new head : Ptr) → Links
unfolding list_add_between
list_add_tail m new head = list_add_between m new (m.prev head) head

-- `__list_del`.
unfoldable pub list_del_between : Links → (prev next : Ptr) → Links
unfolding set_next set_prev
list_del_between m prev next = set_next (set_prev m next prev) prev next

unfoldable pub list_del : Links → (entry : Ptr) → Links
unfolding list_del_between
list_del m entry =
    set_prev (set_next (list_del_between m (m.prev entry) (m.next entry)) entry 0) entry 0

unfoldable pub list_is_last : Links → (list head : Ptr) → Bool
list_is_last m list head = m.next list == head

unfoldable pub list_empty : Links → Ptr → Bool
list_empty m head = m.next head == head

unfoldable pub list_first : Links → Ptr → Ptr
list_first m head = m.next head

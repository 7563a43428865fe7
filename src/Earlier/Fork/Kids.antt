-- ===== src/Earlier/Fork/Kids.antt =====
-- What `sys_fork` of the earlier kernel does to the list of children.
use zeos_soa.Base.{ℕ, ◌≡◌, ◌≢◌, refl, ◌∙◌, arith}
use zeos_soa.KernelList.{Links, init_list_head, list_add_tail, list_add_between, set_next, set_prev}
use zeos_soa.Earlier.{Kernel, list_of, kids_of}
use zeos_soa.Earlier.Fork.{start_kid}

-- The links when the call ends: the kid's node goes into two lists, one after the other.
links-start_kid :
    (parent kid ret : ℕ) (k : Kernel)
    → (start_kid parent kid ret k).1.links
      ≡ list_add_tail
          (list_add_tail (init_list_head k.links (kids_of kid)) (list_of kid) (kids_of parent))
          (list_of kid)
          k.at.readyqueue
unfolding start_kid
links-start_kid parent kid ret k = refl

-- Adding a node that is a list's last to another list leaves its `prev` link in the first.
prev_kept :
    (m : Links) (n q head : ℕ) → head ≢ n → head ≢ q → (list_add_tail m n q).prev head ≡ m.prev head
unfolding list_add_tail list_add_between set_next set_prev
prev_kept m n q head a b = ground arith

-- In the first list the head's `prev` link is the node that was added.
prev_added : (m : Links) (n q : ℕ) → n ≢ q → (list_add_tail m n q).prev q ≡ n
unfolding list_add_tail list_add_between set_next set_prev
prev_added m n q ne = ground arith

next_added : (m : Links) (n q : ℕ) → n ≢ q → n ≢ m.prev q → (list_add_tail m n q).next n ≡ q
unfolding list_add_tail list_add_between set_next set_prev
next_added m n q ne other = ground arith

-- At the end of `sys_fork` of the earlier kernel the kid's node is still the last of the parent's
-- children, as their head's `prev` link has it, but its `next` link leads to the head of the ready
-- queue: the list of children does not come back to its head. The addresses are those of different
-- nodes, and the kid is not in the ready queue yet.
pub start_kid_breaks_kids :
    (parent kid ret : ℕ) (k : Kernel)
    → kids_of parent ≢ list_of kid
    → kids_of parent ≢ k.at.readyqueue
    → list_of kid ≢ k.at.readyqueue
    → kids_of kid ≢ k.at.readyqueue
    → list_of kid ≢ k.links.prev k.at.readyqueue
    → ((start_kid parent kid ret k).1.links.prev (kids_of parent) ≡ list_of kid)
      × ((start_kid parent kid ret k).1.links.next (list_of kid) ≡ k.at.readyqueue)
unfolding start_kid init_list_head set_next set_prev
start_kid_breaks_kids parent kid ret k a b c d new =
    let n = list_of kid in
    let rq = k.at.readyqueue in
    let l0 = init_list_head k.links (kids_of kid) in
    let l1 = list_add_tail l0 n (kids_of parent) in
    let before : l1.prev rq ≡ k.links.prev rq =
      prev_kept l0 n (kids_of parent) rq (omega arith) (omega arith) ∙ ground arith in
    let last : (list_add_tail l1 n rq).prev (kids_of parent) ≡ n =
      prev_kept l1 n rq (kids_of parent) a b ∙ prev_added l0 n (kids_of parent) (omega arith) in
    let next : (list_add_tail l1 n rq).next n ≡ rq = next_added l1 n rq c (λ q. new (q ∙ before)) in
    (last, next)

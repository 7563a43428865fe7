-- ===== src/Semaphore/Signal.antt =====
-- `sys_semSignal`.
use zeos_soa.Base.{
  ℕ, ◌+◌, ◌^◌, ◌<◌, ◌≡◌, refl, sym, subst, true, false, List, [], ◌∷◌, ◌||◌, ◌==◌, Fresh, Disjoint,
  Disjoint-symm, arith, is_neg, add32,
}
use zeos_soa.KernelList.Ring.{IsRing, list_first-IsRing}
use zeos_soa.KernelList.Insert.{list_add-IsRing, list_add-frame}
use zeos_soa.KernelList.Delete.{list_del-IsRing, list_del-frame}
use zeos_soa.Kernel.{Kernel, st_ready, list_head_to_task_struct}
use zeos_soa.Sched.{blocked_of}
use zeos_soa.Semaphore.{my_sem, set_sem, refused, unblock_first, sys_sem_signal}
use zeos_soa.Semaphore.Queues.{CountFits, Queues}

-- The count after a signal.
abbrev counted_up : Kernel → ℕ → Kernel
counted_up k s = set_sem k s (record (k.sem s) { count = add32 (k.sem s).count 1 })

-- With nobody blocked a signal adds one to the count, and nothing else changes.
pub sys_sem_signal_frees :
    (k : Kernel) (sem_id : ℕ)
    → refused k sem_id ≡ false
    → (k.sem (my_sem k sem_id)).count + 1 < 2 ^ 31
    → sys_sem_signal k sem_id ≡ (
      0,
      set_sem k
          (my_sem k sem_id)
          (record (k.sem (my_sem k sem_id)) { count = (k.sem (my_sem k sem_id)).count + 1 }),
    )
unfolding sys_sem_signal
sys_sem_signal_frees k sem_id ok small = ground arith

unblock_first-Queues :
    (k : Kernel) (s b : ℕ) (bs rs : List ℕ)
    → IsRing k.links (blocked_of s) (b ∷ bs)
    → IsRing k.links k.at.readyqueue rs
    → Disjoint (blocked_of s ∷ b ∷ bs) (k.at.readyqueue ∷ rs)
    → CountFits (k.sem s).count bs
    → Queues (unblock_first k s) k.at.readyqueue s bs (b ∷ rs)
      × (((unblock_first k s).task (list_head_to_task_struct b)).state ≡ st_ready)
unfolding unblock_first
unblock_first-Queues k s b bs rs rb rr apart count =
    let first = list_first-IsRing rb in
    let del = list_del-IsRing [] b bs rb in
    let keep = list_del-frame [] b bs rb rr apart in
    let fresh : Fresh b (blocked_of s ∷ bs) = ((λ e. rb.away.0 (sym e)), rb.distinct.0) in
    let swapped = Disjoint-symm (blocked_of s ∷ bs) (k.at.readyqueue ∷ rs) (apart.0, apart.1.1) in
    let moved : Disjoint (k.at.readyqueue ∷ b ∷ rs) (blocked_of s ∷ bs) =
      (swapped.0, (fresh, swapped.1)) in
    rw first (
      record {
        blocked = list_add-frame b keep del swapped fresh;
        ready = list_add-IsRing b keep apart.1.0.0 apart.1.0.1;
        apart = Disjoint-symm (k.at.readyqueue ∷ b ∷ rs) (blocked_of s ∷ bs) moved;
        count = count;
      },
      ground arith,
    )

wakes_eq :
    (k : Kernel) (sem_id : ℕ)
    → refused k sem_id ≡ false
    → (let c = add32 (k.sem (my_sem k sem_id)).count 1 in is_neg c || c == 0) ≡ true
    → sys_sem_signal k sem_id
      ≡ (0, unblock_first (counted_up k (my_sem k sem_id)) (my_sem k sem_id))
unfolding sys_sem_signal
wakes_eq k sem_id ok low = ground arith

counted_up-fits : (c b : ℕ) (bs : List ℕ) → CountFits c (b ∷ bs) → CountFits (add32 c 1) bs
counted_up-fits c b [] f = omega arith
counted_up-fits c b (x ∷ bs) f = omega arith

counted_up-low :
    (c b : ℕ) (bs : List ℕ) → CountFits c (b ∷ bs) → (is_neg (add32 c 1) || add32 c 1 == 0) ≡ true
counted_up-low c b [] f = ground arith
counted_up-low c b (x ∷ bs) f = ground arith

-- With tasks blocked, a signal makes the first of them ready, at the head of the ready queue; the
-- count is again minus the number of those that stay blocked.
pub sys_sem_signal_wakes :
    (k : Kernel) (sem_id b : ℕ) (bs rs : List ℕ)
    → refused k sem_id ≡ false
    → Queues k k.at.readyqueue (my_sem k sem_id) (b ∷ bs) rs
    → ((sys_sem_signal k sem_id).0 ≡ 0)
      × Queues (sys_sem_signal k sem_id).1 k.at.readyqueue (my_sem k sem_id) bs (b ∷ rs)
      × (((sys_sem_signal k sem_id).1.task (list_head_to_task_struct b)).state ≡ st_ready)
sys_sem_signal_wakes k sem_id b bs rs ok q =
    let s = my_sem k sem_id in
    let c = (k.sem s).count in
    let fits = counted_up-fits c b bs q.count in
    let counted : CountFits ((counted_up k s).sem s).count bs =
      subst (λ n. CountFits n bs) (ground arith) fits in
    let (queues, woken) =
      unblock_first-Queues (counted_up k s) s b bs rs q.blocked q.ready q.apart counted in
    subst
      (λ r.
        (r.0 ≡ 0)
        × Queues r.1 k.at.readyqueue s bs (b ∷ rs)
        × ((r.1.task (list_head_to_task_struct b)).state ≡ st_ready))
      (sym (wakes_eq k sem_id ok (counted_up-low c b bs q.count))) (refl, queues, woken)

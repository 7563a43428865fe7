-- ===== src/Semaphore/Wait.antt =====
-- `sys_semWait`.
use zeos_soa.Base.{
  ℕ, ◌+◌, ◌-◌, ◌^◌, ◌≤◌, ◌<◌, ◌≡◌, ◌≢◌, ◌⊎◌, refl, sym, subst, true, false, List, [], ◌∷◌, Fresh,
  Disjoint, Disjoint-symm, length, arith, is_neg, sub32,
}
use zeos_soa.KernelList.{list_add}
use zeos_soa.KernelList.Ring.{IsRing}
use zeos_soa.KernelList.Insert.{list_add-IsRing, list_add-frame}
use zeos_soa.Kernel.{
  Kernel, st_blocked, list_of, list_head_to_task_struct, current, set_state, set_links,
}
use zeos_soa.Sched.{blocked_of, sched_next_rr}
use zeos_soa.Sched.Switch.{Runs, sched_next_rr-cons}
use zeos_soa.Semaphore.{my_sem, set_sem, print, blocking_text, refused, block_on, sys_sem_wait}
use zeos_soa.Semaphore.Queues.{CountFits, Queues}

-- The count after a wait.
abbrev counted_down : Kernel → ℕ → Kernel
counted_down k s = set_sem k s (record (k.sem s) { count = sub32 (k.sem s).count 1 })

-- On a positive count a wait takes one and goes on, and nothing else changes.
pub sys_sem_wait_passes :
    (k : Kernel) (sem_id : ℕ)
    → refused k sem_id ≡ false
    → 0 < (k.sem (my_sem k sem_id)).count
    → (k.sem (my_sem k sem_id)).count < 2 ^ 31
    → sys_sem_wait k sem_id ≡ (
      0,
      set_sem k
          (my_sem k sem_id)
          (record (k.sem (my_sem k sem_id)) { count = (k.sem (my_sem k sem_id)).count - 1 }),
    )
unfolding sys_sem_wait
sys_sem_wait_passes k sem_id ok pos small = ground arith

-- The caller's node, and the kernel just before the processor goes to another task.
abbrev node : Kernel → ℕ
node k = list_of (current k)

abbrev blocking : Kernel → ℕ → Kernel
blocking k s =
    set_links (set_state (print k blocking_text) (current k) st_blocked)
      (list_add k.links (node k) (blocked_of s))

block_on-eq : (k : Kernel) (s : ℕ) → block_on k s ≡ sched_next_rr (blocking k s)
unfolding block_on current
block_on-eq k s = refl

-- The caller is blocked, and the task at `t` runs.
pub record GaveUp (k k' : Kernel) (t : ℕ) : Type 0 where
  pub state : (k'.task (current k)).state ≡ st_blocked
  pub saved : (k'.task (current k)).register_esp ≡ k.ebp
  pub stack : k'.esp ≡ (k.task t).register_esp + 8
  pub quantum : k'.remaining_quantum ≡ (k.task t).total_quantum

GaveUp-blocking :
    (k k' : Kernel) (s t : ℕ) → t ≢ current k → Runs (blocking k s) k' t → GaveUp k k' t
unfolding current
GaveUp-blocking k k' s t ne r = record {
  state = ground (arith, r.states (current k) (λ z. ne (sym z)));
  saved = r.saved;
  stack = ground (arith, r.stack);
  quantum = ground (arith, r.quantum);
}

-- The caller's node is in none of the two queues.
abbrev pub Outside : Kernel → (rq s : ℕ) → (bs rs : List ℕ) → Type 0
Outside k rq s bs rs = Fresh (node k) (blocked_of s ∷ bs) × Fresh (node k) (rq ∷ rs)

block_on-Queues :
    (k : Kernel) (s : ℕ) (bs : List ℕ) (e : ℕ) (es : List ℕ)
    → IsRing k.links (blocked_of s) bs
    → IsRing k.links k.at.readyqueue (e ∷ es)
    → Disjoint (blocked_of s ∷ bs) (k.at.readyqueue ∷ e ∷ es)
    → Outside k k.at.readyqueue s bs (e ∷ es)
    → CountFits (k.sem s).count (node k ∷ bs)
    → list_head_to_task_struct e ≢ current k
    → Queues (block_on k s) k.at.readyqueue s (node k ∷ bs) es
      × GaveUp k (block_on k s) (list_head_to_task_struct e)
block_on-Queues k s bs e es rb rr apart out count ne =
    let add = list_add-IsRing (node k) rb out.0.0 out.0.1 in
    let keep = list_add-frame (node k) rb rr apart out.1 in
    let both : Disjoint (blocked_of s ∷ node k ∷ bs) (k.at.readyqueue ∷ e ∷ es) =
      (apart.0, (out.1, apart.1)) in
    let swapped = Disjoint-symm (blocked_of s ∷ node k ∷ bs) (k.at.readyqueue ∷ e ∷ es) both in
    let left =
      Disjoint-symm (k.at.readyqueue ∷ es) (blocked_of s ∷ node k ∷ bs) (swapped.0, swapped.1.1) in
    let (run, ready, frame, sems) = sched_next_rr-cons (blocking k s) e es keep in
    let eq = sym (block_on-eq k s) in
    (
      subst (λ q. Queues q k.at.readyqueue s (node k ∷ bs) es) eq
          (record {
            blocked = frame (blocked_of s) (node k ∷ bs) add swapped;
            ready = ready;
            apart = left;
            count = subst (λ f. CountFits (f s).count (node k ∷ bs)) (sym sems) count;
          }),
      subst (λ q. GaveUp k q (list_head_to_task_struct e)) eq
          (GaveUp-blocking k (sched_next_rr (blocking k s)) s (list_head_to_task_struct e) ne run),
    )

blocks_eq :
    (k : Kernel) (sem_id : ℕ)
    → refused k sem_id ≡ false
    → is_neg (sub32 (k.sem (my_sem k sem_id)).count 1) ≡ true
    → sys_sem_wait k sem_id ≡ (0, block_on (counted_down k (my_sem k sem_id)) (my_sem k sem_id))
unfolding sys_sem_wait
blocks_eq k sem_id ok neg = ground arith

counted_down-fits :
    (c : ℕ) (bs : List ℕ) (b : ℕ)
    → CountFits c bs
    → length bs < 2 ^ 30
    → (c ≡ 0) ⊎ (2 ^ 31 ≤ c)
    → CountFits (sub32 c 1) (b ∷ bs)
counted_down-fits c [] b f few h = omega arith
counted_down-fits c (x ∷ bs) b f few h = omega arith

counted_down-neg :
    (c : ℕ) (bs : List ℕ)
    → CountFits c bs
    → length bs < 2 ^ 30
    → (c ≡ 0) ⊎ (2 ^ 31 ≤ c)
    → is_neg (sub32 c 1) ≡ true
counted_down-neg c [] f few h = ground arith
counted_down-neg c (x ∷ bs) f few h = ground arith

-- On a count of zero or below, a wait puts the caller first among the blocked tasks and runs the
-- head of the ready queue; the count stays minus the number of blocked tasks.
pub sys_sem_wait_blocks :
    (k : Kernel) (sem_id : ℕ) (bs : List ℕ) (e : ℕ) (es : List ℕ)
    → refused k sem_id ≡ false
    → Queues k k.at.readyqueue (my_sem k sem_id) bs (e ∷ es)
    → ((k.sem (my_sem k sem_id)).count ≡ 0) ⊎ (2 ^ 31 ≤ (k.sem (my_sem k sem_id)).count)
    → length bs < 2 ^ 30
    → Outside k k.at.readyqueue (my_sem k sem_id) bs (e ∷ es)
    → list_head_to_task_struct e ≢ current k
    → ((sys_sem_wait k sem_id).0 ≡ 0)
      × Queues (sys_sem_wait k sem_id).1 k.at.readyqueue (my_sem k sem_id) (node k ∷ bs) es
      × GaveUp k (sys_sem_wait k sem_id).1 (list_head_to_task_struct e)
unfolding current
sys_sem_wait_blocks k sem_id bs e es ok q zero few out ne =
    let s = my_sem k sem_id in
    let c = (k.sem s).count in
    let eq = blocks_eq k sem_id ok (counted_down-neg c bs q.count few zero) in
    let fits = counted_down-fits c bs (node k) q.count few zero in
    let (queues, up) =
      block_on-Queues (counted_down k s) s bs e es q.blocked q.ready q.apart out (ground arith)
        ne in
    let done : GaveUp k (block_on (counted_down k s) s) (list_head_to_task_struct e) = record {
      state = up.state;
      saved = up.saved;
      stack = up.stack;
      quantum = up.quantum;
    } in
    subst
      (λ r.
        (r.0 ≡ 0)
        × Queues r.1 k.at.readyqueue s (node k ∷ bs) es
        × GaveUp k r.1 (list_head_to_task_struct e))
      (sym eq) (refl, queues, done)

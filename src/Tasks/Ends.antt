-- ===== src/Tasks/Ends.antt =====
-- sys.c: `sys_exit` and `sys_threadExit`, in the life of the tasks.
use zeos_soa.Base.{
  ℕ, ◌/◌, ◌≤◌, ◌≡◌, ◌≢◌, sub32, refl, sym, ap, ◌∙◌, subst, List, [], ◌∷◌, ◌++◌, All, All-snoc,
  Fresh, Distinct-snoc, Disjoint, Disjoint-uncons, Disjoint-append, Disjoint-symm, arith,
}
use zeos_soa.KernelList.{list_add_tail}
use zeos_soa.KernelList.Ring.{IsRing}
use zeos_soa.KernelList.Insert.{list_add_tail-IsRing, list_add_tail-frame}
use zeos_soa.Mm.Paging.{page_size}
use zeos_soa.Kernel.{Kernel, Layout, list_of, current, get_pt}
use zeos_soa.Sched.{sched_next_rr}
use zeos_soa.Sched.Switch.{OnStack, sched_next_rr-cons}
use zeos_soa.Sched.Turns.{nodes, IsTask}
use zeos_soa.Sched.Turns.Moves.{nodes-snoc}
use zeos_soa.Sys.Heap.{heap_pointer, set_heap_pointer, give_back}
use zeos_soa.Sys.Exit.{sys_exit, sys_thread_exit, exiting, sys_exit-eq}
use zeos_soa.Tasks.{IsSlot, Population}
use zeos_soa.Tasks.Dispatch.{Waiting, sched_next_rr-Kept, sched_next_rr-Turn}
use zeos_soa.Tasks.Apart.{queues_apart, running_Fresh}

-- `k1` is `k` after the running task's struct went to the tail of the free queue: the other tasks are
-- as they were, and the scheduler has not been called yet.
record Leaves (k k1 : Kernel) : Type 0 where
  place : k1.at ≡ k.at
  now : current k1 ≡ current k
  links : k1.links ≡ list_add_tail k.links (list_of (current k)) k.at.freequeue
  others : (u : ℕ) → u ≢ current k → k1.task u ≡ k.task u

module _ (k k1 : Kernel) (t : ℕ) (ts fs : List ℕ) (p : Population k (current k) (t ∷ ts) fs)
    (l : Leaves k k1) where
  abbrev c : ℕ
  c = current k

  left-tasks : (us : List ℕ) → Fresh c us → All (IsTask k) us → All (IsTask k1) us
  left-tasks [] n h = tt
  left-tasks (u ∷ us) n h =
      let same = l.others u (λ e. n.0 (sym e)) in
      (omega (arith, ap (λ z. z.total_quantum) same, h.0), left-tasks us n.1 h.1)

  left-stacks : (us : List ℕ) → Fresh c us → All (OnStack k) us → All (OnStack k1) us
  left-stacks [] n h = tt
  left-stacks (u ∷ us) n h =
      let same = l.others u (λ e. n.0 (sym e)) in
      (omega (arith, ap (λ z. z.register_esp) same, h.0), left-stacks us n.1 h.1)

  -- The queues in `k1`.
  ready_left : IsRing k1.links k.at.readyqueue (nodes (t ∷ ts))
  ready_left =
      subst (λ m. IsRing m k.at.readyqueue (nodes (t ∷ ts))) (sym l.links)
        (list_add_tail-frame (list_of c) p.free p.turn.queue (queues_apart k c (t ∷ ts) fs p)
          (running_Fresh k c (t ∷ ts) fs p).0)

  free_left : IsRing k1.links k.at.freequeue (nodes fs ++ (list_of c ∷ []))
  free_left =
      let away = (running_Fresh k c (t ∷ ts) fs p).1 in
      subst (λ m. IsRing m k.at.freequeue (nodes fs ++ (list_of c ∷ []))) (sym l.links)
        (list_add_tail-IsRing (list_of c) p.free away.0 away.1)

  left-Waiting : Waiting k1 t ts
  left-Waiting = record {
    queue = subst (λ a. IsRing k1.links a.readyqueue (nodes (t ∷ ts))) (sym l.place) ready_left;
    there = subst (λ a. a.readyqueue ≢ 0) (sym l.place) p.turn.there;
    tasks = left-tasks (t ∷ ts) p.turn.distinct.0 p.turn.tasks.1;
    stacks = left-stacks (t ∷ ts) p.turn.distinct.0 p.turn.stacks;
    distinct = p.turn.distinct.1;
    other = subst (λ z. Fresh z ts) (sym l.now) p.turn.distinct.0.1;
  }

  -- The free queue after the switch.
  free_after : IsRing (sched_next_rr k1).links k.at.freequeue (nodes (fs ++ (c ∷ [])))
  free_after =
      let away = running_Fresh k c (t ∷ ts) fs p in
      let rest = nodes fs ++ (list_of c ∷ []) in
      let d : Disjoint (k.at.readyqueue ∷ nodes (t ∷ ts)) (k.at.freequeue ∷ rest) =
        Disjoint-symm (k.at.freequeue ∷ rest) (k.at.readyqueue ∷ nodes (t ∷ ts)) (
          Disjoint-append (k.at.freequeue ∷ nodes fs) (list_of c ∷ [])
            (k.at.readyqueue ∷ nodes (t ∷ ts)) (queues_apart k c (t ∷ ts) fs p) (away.0, tt)) in
      let s = sched_next_rr-cons k1 (list_of t) (nodes ts) left-Waiting.queue in
      subst (IsRing (sched_next_rr k1).links k.at.freequeue) (sym (nodes-snoc fs c)) (
        s.2 k.at.freequeue rest free_left (
          subst (λ (a : Layout). Disjoint (a.readyqueue ∷ nodes (t ∷ ts)) (k.at.freequeue ∷ rest))
            (sym l.place) d))

  left-Population : Population (sched_next_rr k1) t ts (fs ++ (c ∷ []))
  left-Population =
      let k' = sched_next_rr k1 in
      let (d, fresh) = Disjoint-uncons fs c (t ∷ ts) p.apart in
      let same : k.at ≡ k'.at = sym ((sched_next_rr-Kept k1 t ts left-Waiting).place ∙ l.place) in
      record {
        turn = sched_next_rr-Turn k1 t ts left-Waiting;
        free = subst (λ a. IsRing k'.links a.freequeue (nodes (fs ++ (c ∷ [])))) same free_after;
        heads = subst (λ a. a.freequeue ≢ a.readyqueue) same p.heads;
        busy_slots = subst (λ a. All (IsSlot a) (t ∷ ts)) same p.busy_slots.1;
        free_slots =
            subst (λ a. All (IsSlot a) (fs ++ (c ∷ []))) same
              (All-snoc (IsSlot k.at) fs c p.free_slots p.busy_slots.0);
        free_distinct = Distinct-snoc fs c p.free_distinct fresh;
        apart = Disjoint-append fs (c ∷ []) (t ∷ ts) d (p.turn.distinct.0, tt);
      }

module _ (k : Kernel) (t : ℕ) (ts fs : List ℕ) (p : Population k (current k) (t ∷ ts) fs) where
  exiting-Leaves : Leaves k (exiting k)
  unfolding current
  exiting-Leaves = record { place = refl; now = refl; links = refl; others = λ u ne. ground arith }

  -- The first task that waits runs, and the struct of the one that ended is free, behind the others.
  pub exit-Population :
      (k.task (current k)).heap_start_proc ≤ heap_pointer k (current k)
      → Population (sys_exit k) t ts (fs ++ (current k ∷ []))
  exit-Population heap =
      subst (λ q. Population q t ts (fs ++ (current k ∷ []))) (sym (sys_exit-eq k heap))
        (left-Population k (exiting k) t ts fs p exiting-Leaves)

  -- The state in which `sys_threadExit` calls the scheduler.
  abbrev thread_leaving : Kernel
  thread_leaving =
      let c = current k in
      let page = heap_pointer k c / page_size in
      let k1 = give_back k (get_pt k c) page in
      let k1 = set_heap_pointer k1 c (sub32 (heap_pointer k1 c) page_size) in
      record k1 { links = list_add_tail k1.links (list_of c) k1.at.freequeue }

  thread_leaving-Leaves : Leaves k thread_leaving
  unfolding current
  thread_leaving-Leaves = record {
    place = refl;
    now = refl;
    links = refl;
    others = λ u ne. ground arith;
  }

  pub thread_exit-Population : Population (sys_thread_exit k) t ts (fs ++ (current k ∷ []))
  unfolding sys_thread_exit
  thread_exit-Population = left-Population k thread_leaving t ts fs p thread_leaving-Leaves

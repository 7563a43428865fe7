-- ===== src/Sched/Boot.antt =====
-- The queues that `init_sched` sets up.
use zeos_soa.Base.{
  ℕ, zero, suc, ◌+◌, ◌*◌, ◌≤◌, ◌<◌, ◌≡◌, ◌≢◌, ◌⊎◌, refl, sym, ap, subst, List, [], ◌∷◌, ◌++◌, Fresh,
  arith, neg,
}
use zeos_soa.KernelList.{init_list_head, list_add_tail}
use zeos_soa.KernelList.Ring.{IsRing, IsRing-set_prev-set_next}
use zeos_soa.KernelList.Insert.{init_list_head-IsRing, list_add_tail-IsRing}
use zeos_soa.Mm.Paging.{nr_tasks}
use zeos_soa.Kernel.{Kernel, Layout, list_of, set_task, set_links}
use zeos_soa.Sched.{free_tasks_loop, init_freequeue, init_sched}

-- The nodes of `n` task structs from the `i`-th on.
abbrev pub task_nodes : (n i task : ℕ) → List ℕ
task_nodes zero i task = []
task_nodes (suc n) i task = list_of (task + 4096 * i) ∷ task_nodes n (i + 1) task

-- The address is outside the task array.
abbrev pub OffTasks : Layout → ℕ → Type 0
OffTasks at a = (a < at.task) ⊎ (at.task + 4096 * nr_tasks ≤ a)

abbrev Below : List ℕ → ℕ → Type 0
Below [] w = Unit {0}
Below (x ∷ xs) w = (x < w) × Below xs w

Below-Fresh : (xs : List ℕ) (w : ℕ) → Below xs w → Fresh w xs
Below-Fresh [] w b = tt
Below-Fresh (x ∷ xs) w b = (omega (arith, b.0), Below-Fresh xs w b.1)

Below-snoc : (xs : List ℕ) (v w : ℕ) → Below xs v → v < w → Below (xs ++ (v ∷ [])) w
Below-snoc [] v w b l = (l, tt)
Below-snoc (x ∷ xs) v w b l = (omega (arith, b.0), Below-snoc xs v w b.1 l)

snoc-append : (xs : List ℕ) (v : ℕ) (ys : List ℕ) → (xs ++ (v ∷ [])) ++ ys ≡ xs ++ (v ∷ ys)
snoc-append [] v ys = refl
snoc-append (x ∷ xs) v ys = ap (λ zs. x ∷ zs) (snoc-append xs v ys)

append-nil : (xs : List ℕ) → xs ++ [] ≡ xs
append-nil [] = refl
append-nil (x ∷ xs) = ap (λ zs. x ∷ zs) (append-nil xs)

pub OffTasks-Fresh :
    (at : Layout) (a n i : ℕ) → OffTasks at a → i + n ≤ nr_tasks → Fresh a (task_nodes n i at.task)
OffTasks-Fresh at a zero i off h = tt
OffTasks-Fresh at a (suc n) i off h =
    (omega (arith, off, h), OffTasks-Fresh at a n (i + 1) off (omega (arith, h)))

free_tasks_loop-IsRing :
    (n i : ℕ) (k : Kernel) (xs : List ℕ)
    → OffTasks k.at k.at.freequeue
    → i + n ≤ nr_tasks
    → Below xs (list_of (k.at.task + 4096 * i))
    → IsRing k.links k.at.freequeue xs
    → IsRing (free_tasks_loop n i k).links k.at.freequeue (xs ++ task_nodes n i k.at.task)
unfolding free_tasks_loop
free_tasks_loop-IsRing zero i k xs off h b r =
    subst (IsRing k.links k.at.freequeue) (sym (append-nil xs)) r
free_tasks_loop-IsRing (suc n) i k xs off h b r =
    let t = k.at.task + 4096 * i in
    let k' = set_task k t (record (k.task t) { pid = neg 1 }) in
    let ring =
      list_add_tail-IsRing (list_of t) r (omega (arith, off, h)) (Below-Fresh xs (list_of t) b) in
    subst (IsRing (free_tasks_loop (suc n) i k).links k.at.freequeue)
      (snoc-append xs (list_of t) (task_nodes n (i + 1) k.at.task))
      (free_tasks_loop-IsRing n (i + 1)
        (set_links k' (list_add_tail k.links (list_of t) k.at.freequeue)) (xs ++ (list_of t ∷ []))
        off (omega (arith, h))
        (Below-snoc xs (list_of t) (list_of (k.at.task + 4096 * (i + 1))) b (omega arith)) ring)

-- The loop changes the links and the tasks, and nothing else.
free_tasks_loop-rest :
    (n i : ℕ) (k : Kernel)
    → free_tasks_loop n i k
      ≡ record k { links = (free_tasks_loop n i k).links; task = (free_tasks_loop n i k).task }
unfolding free_tasks_loop
free_tasks_loop-rest zero i k = refl
free_tasks_loop-rest (suc n) i k =
    ap
      (λ (q : Kernel). record q {
        links = (free_tasks_loop (suc n) i k).links;
        task = (free_tasks_loop (suc n) i k).task;
      })
      (free_tasks_loop-rest n (i + 1) _)

pub init_sched-rest :
    (k : Kernel)
    → init_sched k ≡ record k { links = (init_sched k).links; task = (init_sched k).task }
unfolding init_sched init_freequeue
init_sched-rest k =
    ap (λ (q : Kernel). record q { links = (init_sched k).links; task = (init_sched k).task })
      (free_tasks_loop-rest nr_tasks 0 (set_links k (init_list_head k.links k.at.freequeue)))

init_freequeue-IsRing :
    (k : Kernel)
    → OffTasks k.at k.at.freequeue
    → IsRing (init_freequeue k).links k.at.freequeue (task_nodes nr_tasks 0 k.at.task)
      × ((init_freequeue k).at ≡ k.at)
unfolding init_freequeue
init_freequeue-IsRing k off =
    let k' = set_links k (init_list_head k.links k.at.freequeue) in
    (
      free_tasks_loop-IsRing nr_tasks 0 k' [] off (omega arith) tt
          (init_list_head-IsRing k.links k.at.freequeue),
      ap (λ (q : Kernel). q.at) (free_tasks_loop-rest nr_tasks 0 k'),
    )

-- After `init_sched` the free queue holds the ten task structs in the order of the array, and the
-- ready queue is empty, when the two list heads lie apart and outside the array.
pub init_sched-IsRing :
    (k : Kernel)
    → OffTasks k.at k.at.freequeue
    → OffTasks k.at k.at.readyqueue
    → k.at.readyqueue ≢ k.at.freequeue
    → IsRing (init_sched k).links k.at.freequeue (task_nodes nr_tasks 0 k.at.task)
      × IsRing (init_sched k).links k.at.readyqueue []
unfolding init_sched init_list_head
init_sched-IsRing k off off' ne =
    let (ring, same) = init_freequeue-IsRing k off in
    let rq = k.at.readyqueue in
    let both : (q : ℕ)
        → q ≡ rq
        → IsRing (init_list_head (init_freequeue k).links q) k.at.freequeue
            (task_nodes nr_tasks 0 k.at.task)
          × IsRing (init_list_head (init_freequeue k).links q) rq [] =
      λ q e. rw e (
        IsRing-set_prev-set_next rq rq rq ring ne
            (OffTasks-Fresh k.at rq nr_tasks 0 off' (omega arith)),
        init_list_head-IsRing (init_freequeue k).links rq,
      ) in
    both (init_freequeue k).at.readyqueue (ap (λ a. a.readyqueue) same)

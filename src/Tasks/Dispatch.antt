-- ===== src/Tasks/Dispatch.antt =====
-- sched.c: the switch to the task that waits first, for a caller that does not wait itself.
use zeos_soa.Base.{ℕ, ◌≢◌, refl, sym, subst, List, ◌∷◌, All, All-map, Fresh, Distinct, arith}
use zeos_soa.KernelList.{list_del}
use zeos_soa.KernelList.Ring.{IsRing}
use zeos_soa.Kernel.{Kernel, list_of, list_head_to_task_struct, current, set_links}
use zeos_soa.Sched.{run_next, sched_next_rr}
use zeos_soa.Sched.Switch.{
  OnStack, Runs, Runs-current, sched_next_rr-cons, sched_next_rr-eq-run_next,
}
use zeos_soa.Sched.Turns.{nodes, IsTask, Turn}
use zeos_soa.Sched.Turns.Moves.{Kept, run_next-Kept, OnStack-moved, head-node}

-- The task at `t` waits first, before those at `ts`, and none of these is the running one.
pub record Waiting (k : Kernel) (t : ℕ) (ts : List ℕ) : Type 0 where
  pub queue : IsRing k.links k.at.readyqueue (nodes (t ∷ ts))
  pub there : k.at.readyqueue ≢ 0
  pub tasks : All (IsTask k) (t ∷ ts)
  pub stacks : All (OnStack k) (t ∷ ts)
  pub distinct : Distinct (t ∷ ts)
  pub other : Fresh (current k) ts

pub sched_next_rr-Kept :
    (k : Kernel) (t : ℕ) (ts : List ℕ) → Waiting k t ts → Kept k (sched_next_rr k)
unfolding current
sched_next_rr-Kept k t ts w =
    let l = list_del k.links (list_of t) in
    let f = run_next-Kept (set_links k l) (list_head_to_task_struct (list_of t)) in
    let f' : Kept k (run_next (set_links k l) (list_head_to_task_struct (list_of t))) = record {
      place = f.place;
      quanta = f.quanta;
      stacks = f.stacks;
    } in
    subst (Kept k) (sym (sched_next_rr-eq-run_next k (list_of t) (nodes ts) w.queue)) f'

-- After the switch the task at `t` runs, and the others wait.
pub sched_next_rr-Turn :
    (k : Kernel) (t : ℕ) (ts : List ℕ) → Waiting k t ts → Turn (sched_next_rr k) t ts
sched_next_rr-Turn k t ts w =
    let k' = sched_next_rr k in
    let f = sched_next_rr-Kept k t ts w in
    let s = sched_next_rr-cons k (list_of t) (nodes ts) w.queue in
    let r = subst (Runs k k') (head-node t w.tasks.0.0) s.0 in
    let is_task : (u : ℕ) → IsTask k u → IsTask k' u = λ u h. omega (arith, f.quanta u, h) in
    record {
      now = Runs-current k k' t r w.stacks.0;
      running = r.state;
      queue = subst (λ a. IsRing k'.links a.readyqueue (nodes ts)) (sym f.place) s.1;
      there = subst (λ a. a.readyqueue ≢ 0) (sym f.place) w.there;
      tasks = All-map (IsTask k) (IsTask k') (t ∷ ts) is_task w.tasks;
      stacks = OnStack-moved k k' (current k) ts f refl w.other w.stacks.1;
      distinct = w.distinct;
      apart = subst (λ a. list_of t ≢ a.readyqueue) (sym f.place) (λ e. w.queue.away.0 (sym e));
      budget = omega (arith, r.quantum, w.tasks.0);
    }

-- ===== src/Tasks/Joins.antt =====
-- A task struct leaves the free queue for the ready queue, as `sys_fork` and `sys_threadCreate` do
-- it.
use zeos_soa.Base.{
  ℕ, ◌≡◌, ◌≢◌, sym, ◌∙◌, subst, List, [], ◌∷◌, ◌++◌, All, All-snoc, Fresh, Fresh-append,
  Distinct-snoc, Disjoint-symm, Disjoint-append, arith,
}
use zeos_soa.KernelList.Ring.{IsRing}
use zeos_soa.Kernel.{Kernel, list_of, current}
use zeos_soa.Sched.Switch.{OnStack}
use zeos_soa.Sched.Turns.{nodes, IsTask}
use zeos_soa.Sched.Turns.Moves.{nodes-snoc}
use zeos_soa.Tasks.{IsSlot, Population}

-- `k'` is `k` after the struct at `f` joined the tasks: the other tasks and the processor go on as
-- they were, and the new one has the quantum of the running task and a stack in its own page.
pub record Joined (k k' : Kernel) (f : ℕ) (ts fs : List ℕ) : Type 0 where
  pub place : k'.at ≡ k.at
  pub stack : k'.esp ≡ k.esp
  pub budget : k'.remaining_quantum ≡ k.remaining_quantum
  pub running : (k'.task (current k)).state ≡ (k.task (current k)).state
  pub quanta : (u : ℕ) → u ≢ f → (k'.task u).total_quantum ≡ (k.task u).total_quantum
  pub stacks : (u : ℕ) → u ≢ f → (k'.task u).register_esp ≡ (k.task u).register_esp
  pub quantum : (k'.task f).total_quantum ≡ (k.task (current k)).total_quantum
  pub own : OnStack k' f
  pub ready : IsRing k'.links k.at.readyqueue (nodes ts ++ (list_of f ∷ []))
  pub free : IsRing k'.links k.at.freequeue (nodes fs)

module _ (k k' : Kernel) (f : ℕ) (ts fs : List ℕ) (p : Population k (current k) ts (f ∷ fs))
    (j : Joined k k' f ts fs) where
  joined-tasks : (us : List ℕ) → Fresh f us → All (IsTask k) us → All (IsTask k') us
  joined-tasks [] n h = tt
  joined-tasks (u ∷ us) n h =
      (omega (arith, j.quanta u (λ e. n.0 (sym e)), h.0), joined-tasks us n.1 h.1)

  joined-stacks : (us : List ℕ) → Fresh f us → All (OnStack k) us → All (OnStack k') us
  joined-stacks [] n h = tt
  joined-stacks (u ∷ us) n h =
      (omega (arith, j.stacks u (λ e. n.0 (sym e)), h.0), joined-stacks us n.1 h.1)

  -- The new task waits behind the others.
  pub joined-Population : Population k' (current k) (ts ++ (f ∷ [])) fs
  unfolding current
  joined-Population =
      let c = current k in
      let apart = p.apart in
      let queue : IsRing k'.links k.at.readyqueue (nodes (ts ++ (f ∷ []))) =
        subst (IsRing k'.links k.at.readyqueue) (sym (nodes-snoc ts f)) j.ready in
      let new : IsTask k' f = omega (arith, j.quantum, p.turn.tasks.0, p.free_slots.0) in
      let others = joined-tasks (c ∷ ts) apart.0 p.turn.tasks in
      let c_Fresh : Fresh c (f ∷ []) = ((λ e. apart.0.0 (sym e)), tt) in
      record {
        turn = record {
          now = omega (arith, j.stack);
          running = j.running ∙ p.turn.running;
          queue =
              subst (λ a. IsRing k'.links a.readyqueue (nodes (ts ++ (f ∷ [])))) (sym j.place)
                queue;
          there = subst (λ a. a.readyqueue ≢ 0) (sym j.place) p.turn.there;
          tasks = (others.0, All-snoc (IsTask k') ts f others.1 new);
          stacks = All-snoc (OnStack k') ts f (joined-stacks ts apart.0.1 p.turn.stacks) j.own;
          distinct = (
            Fresh-append c ts (f ∷ []) p.turn.distinct.0 c_Fresh,
            Distinct-snoc ts f p.turn.distinct.1 apart.0.1,
          );
          apart = subst (λ a. list_of c ≢ a.readyqueue) (sym j.place) p.turn.apart;
          budget = omega (arith, j.budget, p.turn.budget);
        };
        free = subst (λ a. IsRing k'.links a.freequeue (nodes fs)) (sym j.place) j.free;
        heads = subst (λ a. a.freequeue ≢ a.readyqueue) (sym j.place) p.heads;
        busy_slots =
            subst (λ a. All (IsSlot a) (c ∷ (ts ++ (f ∷ [])))) (sym j.place)
              (p.busy_slots.0, All-snoc (IsSlot k.at) ts f p.busy_slots.1 p.free_slots.0);
        free_slots = subst (λ a. All (IsSlot a) fs) (sym j.place) p.free_slots.1;
        free_distinct = p.free_distinct.1;
        apart = Disjoint-symm (c ∷ (ts ++ (f ∷ []))) fs (
            Disjoint-append (c ∷ ts) (f ∷ []) fs (Disjoint-symm fs (c ∷ ts) apart.1)
              (p.free_distinct.0, tt));
      }

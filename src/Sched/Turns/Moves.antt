-- ===== src/Sched/Turns/Moves.antt =====
-- What one entry into the kernel does to the turns.
use zeos_soa.Base.{
  ℕ, ◌+◌, ◌%◌, ◌^◌, ◌≤◌, ◌<◌, ◌≡◌, ◌≢◌, refl, sym, ap, ◌∙◌, subst, List, [], ◌∷◌, ◌++◌, All,
  All-snoc, All-map, Fresh, Distinct-snoc, Fresh-append, arith,
}
use zeos_soa.KernelList.{list_del}
use zeos_soa.KernelList.Ring.{IsRing}
use zeos_soa.KernelList.Insert.{list_add_tail-IsRing}
use zeos_soa.Kernel.{
  Kernel, list_of, list_head_to_task_struct, current, set_links, get_ticks, update_stats, get_dir,
  get_quantum,
}
use zeos_soa.Sched.{switch_stack, inner_task_switch, run_next, force_task_switch}
use zeos_soa.Sched.Switch.{OnStack, sched_next_rr-eq-run_next}
use zeos_soa.Sched.Policy.{CanRotate, Rotated, step_back, force_task_switch-eq, links-step_back}
use zeos_soa.Sched.Turns.{nodes, IsTask, Turn}

-- What a switch of tasks does not change.
pub record Kept (k k' : Kernel) : Type 0 where
  pub place : k'.at ≡ k.at
  pub quanta : (u : ℕ) → (k'.task u).total_quantum ≡ (k.task u).total_quantum
  pub stacks : (u : ℕ) → u ≢ current k → (k'.task u).register_esp ≡ (k.task u).register_esp

pub run_next-Kept : (k : Kernel) (t : ℕ) → Kept k (run_next k t)
unfolding run_next inner_task_switch switch_stack current update_stats get_ticks get_dir get_quantum
run_next-Kept k t = record {
  place = refl;
  quanta = λ u. ground arith;
  stacks = λ u ne. ground arith;
}

stepped_back-Kept :
    (k : Kernel) (e t : ℕ)
    → Kept k (run_next (set_links (step_back k) (list_del (step_back k).links e)) t)
unfolding current update_stats get_ticks
stepped_back-Kept k e t =
    let f = run_next-Kept (set_links (step_back k) (list_del (step_back k).links e)) t in
    record {
      place = f.place;
      quanta = λ u. ground (arith, f.quanta u);
      stacks = λ u ne. ground (arith, f.stacks u ne);
    }

pub force_task_switch-Kept :
    (k : Kernel) (e : ℕ) (es : List ℕ) → CanRotate k e es → Kept k (force_task_switch k)
unfolding update_stats
force_task_switch-Kept k e es can =
    let ring = list_add_tail-IsRing (list_of (current k)) can.ring can.apart can.fresh in
    let ring' =
      subst (λ l. IsRing l k.at.readyqueue (e ∷ (es ++ (list_of (current k) ∷ []))))
        (sym (links-step_back k)) ring in
    subst (Kept k)
      (sym (
        force_task_switch-eq k can.running can.there
        ∙ sched_next_rr-eq-run_next (step_back k) e (es ++ (list_of (current k) ∷ [])) ring'))
      (stepped_back-Kept k e (list_head_to_task_struct e))

pub nodes-snoc : (ts : List ℕ) (c : ℕ) → nodes (ts ++ (c ∷ [])) ≡ nodes ts ++ (list_of c ∷ [])
nodes-snoc [] c = refl
nodes-snoc (t ∷ ts) c = ap (λ l. list_of t ∷ l) (nodes-snoc ts c)

pub Fresh-nodes : (c : ℕ) (ts : List ℕ) → Fresh c ts → Fresh (list_of c) (nodes ts)
Fresh-nodes c [] f = tt
Fresh-nodes c (t ∷ ts) f = ((λ e. f.0 (omega (arith, e))), Fresh-nodes c ts f.1)

pub head-node : (t : ℕ) → t % 2 ^ 12 ≡ 0 → list_head_to_task_struct (list_of t) ≡ t
unfolding list_head_to_task_struct
head-node t h = omega arith

pub Turn-CanRotate :
    (k : Kernel) (c t : ℕ) (ts : List ℕ) → Turn k c (t ∷ ts) → CanRotate k (list_of t) (nodes ts)
Turn-CanRotate k c t ts turn = record {
  ring = turn.queue;
  running = rw turn.now turn.running;
  there = turn.there;
  apart = rw turn.now turn.apart;
  fresh =
      subst (λ u. Fresh (list_of u) (nodes (t ∷ ts))) (sym turn.now)
        (Fresh-nodes c (t ∷ ts) turn.distinct.0);
  other = λ e. turn.distinct.0.0 (sym turn.now ∙ sym e ∙ head-node t turn.tasks.1.0.0);
}

pub OnStack-moved :
    (k k' : Kernel) (c : ℕ) (ts : List ℕ)
    → Kept k k'
    → current k ≡ c
    → Fresh c ts
    → All (OnStack k) ts
    → All (OnStack k') ts
OnStack-moved k k' c [] f now fresh h = tt
OnStack-moved k k' c (t ∷ ts) f now fresh h =
    let same = f.stacks t (λ e. fresh.0 (sym now ∙ sym e)) in
    (omega (arith, same, h.0), OnStack-moved k k' c ts f now fresh.1 h.1)

-- The turns after a switch: the first of those that waited runs, and the other waits behind the
-- rest.
pub Turn-switched :
    (k k' : Kernel) (c t : ℕ) (ts : List ℕ)
    → Turn k c (t ∷ ts)
    → (c ≤ k.ebp) × (k.ebp + 4 < c + 2 ^ 12)
    → Kept k k'
    → Rotated k k' t (nodes ts)
    → Turn k' t (ts ++ (c ∷ []))
unfolding current
Turn-switched k k' c t ts turn frame f r =
    let is_task : (u : ℕ) → IsTask k u → IsTask k' u = λ u h. omega (arith, f.quanta u, h) in
    let own : OnStack k' c = omega (
      arith,
      subst (λ u. (k'.task u).register_esp ≡ k.ebp) turn.now r.saved,
      turn.tasks.0,
      frame,
    ) in
    let moved = OnStack-moved k k' c ts f turn.now turn.distinct.0.1 turn.stacks.1 in
    record {
      now = omega (arith, r.stack, turn.stacks.0);
      running = r.state;
      queue =
          subst (λ a. IsRing k'.links a.readyqueue (nodes (ts ++ (c ∷ [])))) (sym f.place)
            (subst (IsRing k'.links k.at.readyqueue)
              (ap (λ u. nodes ts ++ (list_of u ∷ [])) turn.now ∙ sym (nodes-snoc ts c)) r.queue);
      there = subst (λ a. a.readyqueue ≢ 0) (sym f.place) turn.there;
      tasks = (
        is_task t turn.tasks.1.0,
        All-snoc (IsTask k') ts c (All-map (IsTask k) (IsTask k') ts is_task turn.tasks.1.1)
            (is_task c turn.tasks.0),
      );
      stacks = All-snoc (OnStack k') ts c moved own;
      distinct = (
        Fresh-append t ts (c ∷ []) turn.distinct.1.0 ((λ e. turn.distinct.0.0 (sym e)), tt),
        Distinct-snoc ts c turn.distinct.1.1 turn.distinct.0.1,
      );
      apart = subst (λ a. list_of t ≢ a.readyqueue) (sym f.place) (λ e. turn.queue.away.0 (sym e));
      budget = omega (arith, r.quantum, turn.tasks.1.0);
    }

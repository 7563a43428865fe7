-- ===== src/Tasks/Apart.antt =====
-- The queues of the kernel share no node.
use zeos_soa.Base.{
  ℕ, sym, List, [], ◌∷◌, All, Fresh, Distinct, Disjoint, Disjoint-cons, Disjoint-uncons, arith,
}
use zeos_soa.Kernel.{Kernel, Layout, list_of}
use zeos_soa.Sched.Boot.{OffTasks}
use zeos_soa.Sched.Turns.{nodes}
use zeos_soa.Sched.Turns.Moves.{Fresh-nodes}
use zeos_soa.Tasks.{IsSlot, Population}

pub Disjoint-nodes : (fs ts : List ℕ) → Disjoint fs ts → Disjoint (nodes fs) (nodes ts)
Disjoint-nodes [] ts d = tt
Disjoint-nodes (f ∷ fs) ts d = (Fresh-nodes f ts d.0, Disjoint-nodes fs ts d.1)

pub Distinct-nodes : (ts : List ℕ) → Distinct ts → Distinct (nodes ts)
Distinct-nodes [] d = tt
Distinct-nodes (t ∷ ts) d = (Fresh-nodes t ts d.0, Distinct-nodes ts d.1)

pub slots-Fresh :
    (at : Layout) (ts : List ℕ)
    → All (IsSlot at) ts
    → Fresh at.freequeue (nodes ts) × Fresh at.readyqueue (nodes ts)
slots-Fresh at [] h = (tt, tt)
slots-Fresh at (t ∷ ts) h =
    let (f, r) = slots-Fresh at ts h.1 in (((λ e. h.0.1 (sym e)), f), ((λ e. h.0.2 (sym e)), r))

pub slots-OffTasks :
    (at : Layout) (a : ℕ) (ts : List ℕ) → OffTasks at a → All (IsSlot at) ts → Fresh a (nodes ts)
slots-OffTasks at a [] o h = tt
slots-OffTasks at a (t ∷ ts) o h =
    ((λ e. omega (arith, o, h.0.3, h.0.4, e)), slots-OffTasks at a ts o h.1)

module _ (k : Kernel) (c : ℕ) (ts fs : List ℕ) (p : Population k c ts fs) where
  pub queues_apart : Disjoint (k.at.freequeue ∷ nodes fs) (k.at.readyqueue ∷ nodes ts)
  queues_apart =
      let (d, fresh) = Disjoint-uncons fs c ts p.apart in
      (
        (p.heads, (slots-Fresh k.at ts p.busy_slots.1).0),
        Disjoint-cons (nodes fs) k.at.readyqueue (nodes ts) (Disjoint-nodes fs ts d)
            (slots-Fresh k.at fs p.free_slots).1,
      )

  -- The node of the running task is in neither queue.
  pub running_Fresh :
      Fresh (list_of c) (k.at.readyqueue ∷ nodes ts) × Fresh (list_of c) (k.at.freequeue ∷ nodes fs)
  running_Fresh =
      let (d, fresh) = Disjoint-uncons fs c ts p.apart in
      (
        (p.busy_slots.0.2, Fresh-nodes c ts p.turn.distinct.0),
        (p.busy_slots.0.1, Fresh-nodes c fs fresh),
      )

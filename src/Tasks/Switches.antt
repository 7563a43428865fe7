-- ===== src/Tasks/Switches.antt =====
-- interrupt.c, sched.c: ticks of the clock and yields, in the life of the tasks.
use zeos_soa.Base.{
  ℕ, ◌+◌, ◌^◌, ◌≤◌, ◌<◌, ◌≡◌, ◌≢◌, inl, inr, refl, sym, ap, ◌∙◌, subst, List, [], ◌∷◌, ◌++◌, All,
  All-snoc, Fresh, Disjoint, Disjoint-symm, Disjoint-append, Disjoint-uncons, arith, sub32, add32,
}
use native.Mathlib.Decide.{ℕ_discrete}
use zeos_soa.KernelList.{list_add_tail}
use zeos_soa.KernelList.Ring.{IsRing}
use zeos_soa.KernelList.Insert.{list_add_tail-IsRing, list_add_tail-frame}
use zeos_soa.Io.{Console}
use zeos_soa.Kernel.{Kernel, list_of, current, update_stats}
use zeos_soa.Sched.{force_task_switch}
use zeos_soa.Sched.Switch.{sched_next_rr-cons}
use zeos_soa.Sched.Policy.{
  CanRotate, Rotated, step_back, force_task_switch-eq, links-step_back, force_task_switch-Rotated,
  schedule_expired, schedule_alone,
}
use zeos_soa.Sched.Turns.{nodes, Turn, tick, CanEnter}
use zeos_soa.Sched.Turns.Moves.{force_task_switch-Kept, Turn-CanRotate, Turn-switched, head-node}
use zeos_soa.Sched.Turns.Fair.{Step-Moved}
use zeos_soa.Interrupt.{clock_routine}
use zeos_soa.Interrupt.Clock.{clock_routine_within}
use zeos_soa.Tasks.{IsSlot, Population}
use zeos_soa.Tasks.Apart.{queues_apart, running_Fresh}

-- A list that shares nothing with the ready queue and the running task survives the switch.
force_task_switch-frame :
    (k : Kernel) (e : ℕ) (es : List ℕ) (other : ℕ) (zs : List ℕ)
    → CanRotate k e es
    → IsRing k.links other zs
    → Disjoint (k.at.readyqueue ∷ e ∷ es) (other ∷ zs)
    → Fresh (list_of (current k)) (other ∷ zs)
    → IsRing (force_task_switch k).links other zs
unfolding update_stats
force_task_switch-frame k e es other zs can o d f =
    let c = list_of (current k) in
    let ring = list_add_tail-IsRing c can.ring can.apart can.fresh in
    let kept = list_add_tail-frame c can.ring o d f in
    let in_step =
      λ (q : ℕ) (xs : List ℕ) (r : IsRing (list_add_tail k.links c k.at.readyqueue) q xs).
        subst (λ l. IsRing l q xs) (sym (links-step_back k)) r in
    let s =
      sched_next_rr-cons (step_back k) e (es ++ (c ∷ []))
        (in_step k.at.readyqueue (e ∷ (es ++ (c ∷ []))) ring) in
    subst (λ q. IsRing q.links other zs) (sym (force_task_switch-eq k can.running can.there))
      (s.2 other zs (in_step other zs kept)
        (Disjoint-append (k.at.readyqueue ∷ e ∷ es) (c ∷ []) (other ∷ zs) d (f, tt)))

-- The frame pointer of the running task lies in the page of its struct.
abbrev pub InFrame : Kernel → Type 0
InFrame k = (current k ≤ k.ebp) × (k.ebp + 4 < current k + 2 ^ 12)

-- After a switch, whatever function made it.
rotated-Population :
    (k k' : Kernel) (t : ℕ) (ts fs : List ℕ)
    → Population k (current k) (t ∷ ts) fs
    → Turn k' t (ts ++ (current k ∷ []))
    → k'.at ≡ k.at
    → IsRing k'.links k.at.freequeue (nodes fs)
    → Population k' t (ts ++ (current k ∷ [])) fs
rotated-Population k k' t ts fs p turn place free =
    let c = current k in
    let (d, fresh) = Disjoint-uncons fs c (t ∷ ts) p.apart in
    record {
      turn = turn;
      free = subst (λ a. IsRing k'.links a.freequeue (nodes fs)) (sym place) free;
      heads = subst (λ a. a.freequeue ≢ a.readyqueue) (sym place) p.heads;
      busy_slots =
          subst (λ a. All (IsSlot a) (t ∷ (ts ++ (c ∷ [])))) (sym place)
            (All-snoc (IsSlot k.at) (t ∷ ts) c p.busy_slots.1 p.busy_slots.0);
      free_slots = subst (λ a. All (IsSlot a) fs) (sym place) p.free_slots;
      free_distinct = p.free_distinct;
      apart =
          Disjoint-symm (t ∷ (ts ++ (c ∷ []))) fs
            (Disjoint-append (t ∷ ts) (c ∷ []) fs (Disjoint-symm fs (t ∷ ts) d) (fresh, tt));
    }

-- The task goes on.
same-Population :
    (k k' : Kernel) (ts fs : List ℕ)
    → Population k (current k) ts fs
    → Turn k' (current k) ts
    → k'.at ≡ k.at
    → IsRing k'.links k.at.freequeue (nodes fs)
    → Population k' (current k) ts fs
same-Population k k' ts fs p turn place free = record {
  turn = turn;
  free = subst (λ a. IsRing k'.links a.freequeue (nodes fs)) (sym place) free;
  heads = subst (λ a. a.freequeue ≢ a.readyqueue) (sym place) p.heads;
  busy_slots = subst (λ a. All (IsSlot a) (current k ∷ ts)) (sym place) p.busy_slots;
  free_slots = subst (λ a. All (IsSlot a) fs) (sym place) p.free_slots;
  free_distinct = p.free_distinct;
  apart = p.apart;
}

module _ (k : Kernel) (t : ℕ) (ts fs : List ℕ) (p : Population k (current k) (t ∷ ts) fs) where
  can_rotate : CanRotate k (list_of t) (nodes ts)
  can_rotate = Turn-CanRotate k (current k) t ts p.turn

  free_after_switch : IsRing (force_task_switch k).links k.at.freequeue (nodes fs)
  free_after_switch =
      force_task_switch-frame k (list_of t) (nodes ts) k.at.freequeue (nodes fs) can_rotate p.free
        (Disjoint-symm (k.at.freequeue ∷ nodes fs) (k.at.readyqueue ∷ list_of t ∷ nodes ts)
          (queues_apart k (current k) (t ∷ ts) fs p))
        (running_Fresh k (current k) (t ∷ ts) fs p).1

  -- A yield: the first task that waits runs, and the running one waits behind the others.
  pub yield-Population : InFrame k → Population (force_task_switch k) t (ts ++ (current k ∷ [])) fs
  yield-Population frame =
      let f = force_task_switch-Kept k (list_of t) (nodes ts) can_rotate in
      let r =
        subst (λ u. Rotated k (force_task_switch k) u (nodes ts)) (head-node t p.turn.tasks.1.0.0)
          (force_task_switch-Rotated k (list_of t) (nodes ts) can_rotate) in
      rotated-Population k (force_task_switch k) t ts fs p
        (Turn-switched k (force_task_switch k) (current k) t ts p.turn frame f r) f.place
        free_after_switch

module _ (show_clock : ℕ → Console → Console) where
  -- What a tick leaves as it was, within the quantum and at its end.
  tick_frame_within :
      (k : Kernel) (fs : List ℕ)
      → sub32 k.remaining_quantum 1 ≢ 0
      → IsRing k.links k.at.freequeue (nodes fs)
      → ((clock_routine show_clock k).at ≡ k.at)
        × IsRing (clock_routine show_clock k).links k.at.freequeue (nodes fs)
  tick_frame_within k fs more free =
      let eq = clock_routine_within show_clock k more in
      (
        ap (λ (q : Kernel). q.at) eq,
        subst (λ q. IsRing q.links k.at.freequeue (nodes fs)) (sym eq) free,
      )

  -- The state at the end of the quantum.
  abbrev expired : Kernel → Kernel
  expired k = record k {
    console = show_clock k.zeos_ticks k.console;
    zeos_ticks = add32 k.zeos_ticks 1;
    remaining_quantum = sub32 k.remaining_quantum 1;
  }

  tick_frame_expired :
      (k : Kernel) (t : ℕ) (ts fs : List ℕ)
      → sub32 k.remaining_quantum 1 ≡ 0
      → Population k (current k) (t ∷ ts) fs
      → ((clock_routine show_clock k).at ≡ k.at)
        × IsRing (clock_routine show_clock k).links k.at.freequeue (nodes fs)
  unfolding clock_routine current
  tick_frame_expired k t ts fs over p =
      let can = Turn-CanRotate k (current k) t ts p.turn in
      let can' : CanRotate (expired k) (list_of t) (nodes ts) = record {
        ring = can.ring;
        running = can.running;
        there = can.there;
        apart = can.apart;
        fresh = can.fresh;
        other = can.other;
      } in
      let k1 = record k {
        console = show_clock k.zeos_ticks k.console;
        zeos_ticks = add32 k.zeos_ticks 1;
      } in
      let eq = schedule_expired k1 (list_of t) (nodes ts) over can.ring in
      let free =
        force_task_switch-frame (expired k) (list_of t) (nodes ts) k.at.freequeue (nodes fs) can'
          p.free
          (Disjoint-symm (k.at.freequeue ∷ nodes fs) (k.at.readyqueue ∷ list_of t ∷ nodes ts)
            (queues_apart k (current k) (t ∷ ts) fs p))
          (running_Fresh k (current k) (t ∷ ts) fs p).1 in
      (
        ap (λ (q : Kernel). q.at) eq
            ∙ (force_task_switch-Kept (expired k) (list_of t) (nodes ts) can').place,
        subst (λ q. IsRing q.links k.at.freequeue (nodes fs)) (sym eq) free,
      )

  -- A tick with a task ready: within the quantum the running one goes on.
  pub tick_within-Population :
      (k : Kernel) (t : ℕ) (ts fs : List ℕ)
      → Population k (current k) (t ∷ ts) fs
      → InFrame k
      → sub32 k.remaining_quantum 1 ≢ 0
      → Population (clock_routine show_clock k) (current k) (t ∷ ts) fs
  unfolding current
  tick_within-Population k t ts fs p frame more =
      let k' = clock_routine show_clock k in
      let can : CanEnter k k.esp k.ebp = (refl, frame.0, frame.1) in
      let moved =
        Step-Moved show_clock k k' (current k) t ts p.turn (tick k.esp k.ebp k.word can) in
      let (place, free) = tick_frame_within k fs more p.free in
      let here : current k' ≡ current k = ap current (clock_routine_within show_clock k more) in
      elim moved.turns [
        | inl (turn, _) ↦ same-Population k k' (t ∷ ts) fs p turn place free
        | inr (turn, _) ↦ absurd (p.turn.distinct.0.0 (sym here ∙ turn.now))
      ]

  -- At the end of the quantum it changes places with the first.
  pub tick_expired-Population :
      (k : Kernel) (t : ℕ) (ts fs : List ℕ)
      → Population k (current k) (t ∷ ts) fs
      → InFrame k
      → sub32 k.remaining_quantum 1 ≡ 0
      → Population (clock_routine show_clock k) t (ts ++ (current k ∷ [])) fs
  unfolding current
  tick_expired-Population k t ts fs p frame over =
      let k' = clock_routine show_clock k in
      let can : CanEnter k k.esp k.ebp = (refl, frame.0, frame.1) in
      let moved =
        Step-Moved show_clock k k' (current k) t ts p.turn (tick k.esp k.ebp k.word can) in
      let (place, free) = tick_frame_expired k t ts fs over p in
      elim moved.turns [
        | inl (turn, less) ↦ absurd (omega (arith, p.turn.budget, turn.budget, less, over))
        | inr (turn, _) ↦ rotated-Population k k' t ts fs p turn place free
      ]

  -- A tick with no other task ready: the running one goes on, if need be with a fresh quantum.
  pub tick_alone-Population :
      (k : Kernel) (fs : List ℕ)
      → Population k (current k) [] fs
      → Population (clock_routine show_clock k) (current k) [] fs
  unfolding clock_routine current
  tick_alone-Population k fs p =
      let turn = p.turn in
      let k1 = record k {
        console = show_clock k.zeos_ticks k.console;
        zeos_ticks = add32 k.zeos_ticks 1;
      } in
      let going_on : (n : ℕ)
          → (0 < n) × (n < 2 ^ 32)
          → Population (record k1 { remaining_quantum = n }) (current k) [] fs =
        λ n b. record {
          turn = record {
            now = refl;
            running = turn.running;
            queue = turn.queue;
            there = turn.there;
            tasks = turn.tasks;
            stacks = tt;
            distinct = (tt, tt);
            apart = turn.apart;
            budget = b;
          };
          free = p.free;
          heads = p.heads;
          busy_slots = p.busy_slots;
          free_slots = p.free_slots;
          free_distinct = p.free_distinct;
          apart = p.apart;
        } in
      elim (ℕ_discrete (sub32 k.remaining_quantum 1) 0) [
        | yes over ↦
            subst (λ q. Population q (current k) [] fs) (sym (schedule_alone k1 over turn.queue))
              (going_on (k.task (current k)).total_quantum (turn.tasks.0.1, turn.tasks.0.2))
        | no more ↦
            subst (λ q. Population q (current k) [] fs)
              (sym (clock_routine_within show_clock k more))
              (going_on (sub32 k.remaining_quantum 1) (omega (arith, turn.budget, more)))
      ]

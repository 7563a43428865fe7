-- ===== src/Sched/Turns/Fair.antt =====
-- Every entry into the kernel keeps the turns, and every waiting task gets the processor.
use zeos_soa.Base.{
  ℕ, ◌+◌, ◌^◌, ◌≤◌, ◌<◌, ◌≡◌, ◌≢◌, ◌⊎◌, inl, inr, refl, sym, ◌∙◌, subst, List, [], ◌∷◌, ◌++◌, arith,
  sub32, add32,
}
use native.Mathlib.Decide.{ℕ_discrete}
use zeos_soa.Io.{Console}
use zeos_soa.Kernel.{Kernel, list_of, list_head_to_task_struct, current}
use zeos_soa.Sched.{force_task_switch}
use zeos_soa.Sched.Policy.{CanRotate, Rotated, force_task_switch-Rotated, schedule_expired}
use zeos_soa.Interrupt.{clock_routine}
use zeos_soa.Interrupt.Clock.{clock_routine_within, clock_routine-Rotated}
use zeos_soa.Sys.{sys_yield}
use zeos_soa.Sched.Turns.{nodes, Turn, enter, CanEnter, Step, tick, yielded}
use zeos_soa.Sched.Turns.Moves.{
  Kept, force_task_switch-Kept, Turn-CanRotate, Turn-switched, head-node,
}

-- What one entry does: the running task goes on with a tick less, or the first that waits takes over
-- with its whole quantum. No task's quantum changes.
pub record Moved (k k' : Kernel) (c t : ℕ) (ts : List ℕ) : Type 0 where
  pub turns :
      (Turn k' c (t ∷ ts) × (k'.remaining_quantum + 1 ≡ k.remaining_quantum))
      ⊎ (Turn k' t (ts ++ (c ∷ [])) × (k'.remaining_quantum ≡ (k.task t).total_quantum))
  pub quanta : (u : ℕ) → (k'.task u).total_quantum ≡ (k.task u).total_quantum

pub Turn-enter :
    (k : Kernel) (c : ℕ) (ts : List ℕ) (esp ebp : ℕ) (word : ℕ → ℕ)
    → Turn k c ts
    → CanEnter k esp ebp
    → Turn (enter k esp ebp word) c ts
unfolding current
Turn-enter k c ts esp ebp word turn can = record {
  now = can.0 ∙ turn.now;
  running = turn.running;
  queue = turn.queue;
  there = turn.there;
  tasks = turn.tasks;
  stacks = turn.stacks;
  distinct = turn.distinct;
  apart = turn.apart;
  budget = turn.budget;
}

pub frame_of :
    (k : Kernel) (c : ℕ) (ts : List ℕ) (esp ebp : ℕ)
    → Turn k c ts
    → CanEnter k esp ebp
    → (c ≤ ebp) × (ebp + 4 < c + 2 ^ 12)
frame_of k c ts esp ebp turn can = omega (arith, turn.now, can)

-- A switch, by whatever kernel function.
Moved-switched :
    (k k' : Kernel) (c t : ℕ) (ts : List ℕ)
    → Turn k c (t ∷ ts)
    → (c ≤ k.ebp) × (k.ebp + 4 < c + 2 ^ 12)
    → Kept k k'
    → Rotated k k' (list_head_to_task_struct (list_of t)) (nodes ts)
    → Moved k k' c t ts
Moved-switched k k' c t ts turn frame f r =
    let r' = subst (λ u. Rotated k k' u (nodes ts)) (head-node t turn.tasks.1.0.0) r in
    record {
      turns = inr (Turn-switched k k' c t ts turn frame f r', r'.quantum);
      quanta = f.quanta;
    }

clock_routine-Kept :
    (show_clock : ℕ → Console → Console) (k : Kernel) (e : ℕ) (es : List ℕ)
    → sub32 k.remaining_quantum 1 ≡ 0
    → CanRotate k e es
    → Kept k (clock_routine show_clock k)
unfolding clock_routine current
clock_routine-Kept show_clock k e es h can =
    let k1 = record k {
      console = show_clock k.zeos_ticks k.console;
      zeos_ticks = add32 k.zeos_ticks 1;
    } in
    let k2 = record k1 { remaining_quantum = sub32 k.remaining_quantum 1 } in
    let can2 : CanRotate k2 e es = record {
      ring = can.ring;
      running = can.running;
      there = can.there;
      apart = can.apart;
      fresh = can.fresh;
      other = can.other;
    } in
    let f = force_task_switch-Kept k2 e es can2 in
    let f' : Kept k (force_task_switch k2) = record {
      place = f.place;
      quanta = f.quanta;
      stacks = f.stacks;
    } in
    subst (Kept k) (sym (schedule_expired k1 e es h can.ring)) f'

Moved-within :
    (show_clock : ℕ → Console → Console) (k : Kernel) (c t : ℕ) (ts : List ℕ)
    → Turn k c (t ∷ ts)
    → sub32 k.remaining_quantum 1 ≢ 0
    → Moved k (clock_routine show_clock k) c t ts
unfolding current
Moved-within show_clock k c t ts turn more =
    let k' = record k {
      console = show_clock k.zeos_ticks k.console;
      zeos_ticks = add32 k.zeos_ticks 1;
      remaining_quantum = sub32 k.remaining_quantum 1;
    } in
    let turn' : Turn k' c (t ∷ ts) = record {
      now = turn.now;
      running = turn.running;
      queue = turn.queue;
      there = turn.there;
      tasks = turn.tasks;
      stacks = turn.stacks;
      distinct = turn.distinct;
      apart = turn.apart;
      budget = omega (arith, turn.budget, more);
    } in
    subst (λ q. Moved k q c t ts) (sym (clock_routine_within show_clock k more))
      (record { turns = inl (turn', omega (arith, turn.budget)); quanta = λ u. refl })

-- An entry made while the task at `c` runs and the one at `t` waits first: either the task at `c`
-- runs on and its quantum is a tick shorter, or the task at `t` runs, with its whole quantum, and the
-- one at `c` waits last. The state is again one of turns.
pub Step-Moved :
    (show_clock : ℕ → Console → Console) (k k' : Kernel) (c t : ℕ) (ts : List ℕ)
    → Turn k c (t ∷ ts)
    → Step show_clock k k'
    → Moved k k' c t ts
unfolding sys_yield current
Step-Moved show_clock k k' c t ts turn (tick esp ebp word can) =
    let e = enter k esp ebp word in
    let turn' = Turn-enter k c (t ∷ ts) esp ebp word turn can in
    let can' = Turn-CanRotate e c t ts turn' in
    let done : Moved e (clock_routine show_clock e) c t ts =
      elim (ℕ_discrete (sub32 k.remaining_quantum 1) 0) [
        | yes over ↦
            Moved-switched e (clock_routine show_clock e) c t ts turn'
              (frame_of k c (t ∷ ts) esp ebp turn can)
              (clock_routine-Kept show_clock e (list_of t) (nodes ts) over can')
              (clock_routine-Rotated show_clock e (list_of t) (nodes ts) over can')
        | no more ↦ Moved-within show_clock e c t ts turn' more
      ] in
    record { turns = done.turns; quanta = done.quanta }
Step-Moved show_clock k k' c t ts turn (yielded esp ebp word can) =
    let e = enter k esp ebp word in
    let turn' = Turn-enter k c (t ∷ ts) esp ebp word turn can in
    let can' = Turn-CanRotate e c t ts turn' in
    let done =
      Moved-switched e (force_task_switch e) c t ts turn' (frame_of k c (t ∷ ts) esp ebp turn can)
        (force_task_switch-Kept e (list_of t) (nodes ts) can')
        (force_task_switch-Rotated e (list_of t) (nodes ts) can') in
    record { turns = done.turns; quanta = done.quanta }

-- ===== src/Tasks/Life.antt =====
-- The kernel's tasks against an abstract machine of three lists: interrupt.c, sched.c, sys.c.
use native.Mathlib.Decide.{ℕ_discrete}
use zeos_soa.Base.{
  ℕ, ◌≤◌, ◌≡◌, arith, sub32, not, ◌&&◌, ◌==◌, if◌then◌else◌, refl, sym, ◌∙◌, subst, false, true,
  Bool, some, List, [], ◌∷◌, ◌++◌, is_nil,
}
use zeos_soa.KernelList.{list_empty}
use zeos_soa.KernelList.Ring.{list_empty_iff}
use zeos_soa.Io.{Console}
use zeos_soa.Kernel.{Kernel, current}
use zeos_soa.Sched.Turns.{nodes, enter, CanEnter}
use zeos_soa.Sched.Turns.Fair.{Turn-enter}
use zeos_soa.Interrupt.{clock_routine}
use zeos_soa.Sys.{sys_yield}
use zeos_soa.Sys.Heap.{heap_pointer}
use zeos_soa.Sys.Exit.{sys_exit, sys_thread_exit}
use zeos_soa.Sys.Thread.{sys_thread_create}
use zeos_soa.Sys.Fork.{sys_fork}
use zeos_soa.Tasks.{Population}
use zeos_soa.Tasks.Ends.{exit-Population, thread_exit-Population}
use zeos_soa.Tasks.Threads.{HasRoom, thread_create-Population}
use zeos_soa.Tasks.Forks.{HasMemory, fork-Population}
use zeos_soa.Tasks.Switches.{
  InFrame, yield-Population, tick_within-Population, tick_expired-Population, tick_alone-Population,
}

-- The abstract machine: the task that runs, those that are ready and the structs that are free.
pub record Spec : Type 0 where
  pub running : ℕ
  pub ready : List ℕ
  pub free : List ℕ

-- What it can do: nothing; the first ready task takes over and the running one goes behind the rest;
-- the running task ends; a free struct becomes a task.
pub data Act : Type 0 where
  stay : Act
  rotate : Act
  finish : Act
  start : Act

-- The move from `s` to `s'` that goes with each.
pub data Change (s s' : Spec) : Act → Type 0 where
  stays : s' ≡ s → Change s s' stay
  rotates :
      (t : ℕ) (ts : List ℕ)
      → s.ready ≡ t ∷ ts
      → s' ≡ record { running = t; ready = ts ++ (s.running ∷ []); free = s.free }
      → Change s s' rotate
  ends :
      (t : ℕ) (ts : List ℕ)
      → s.ready ≡ t ∷ ts
      → s' ≡ record { running = t; ready = ts; free = s.free ++ (s.running ∷ []) }
      → Change s s' finish
  starts :
      (f : ℕ) (fs : List ℕ)
      → s.free ≡ f ∷ fs
      → s' ≡ record { running = s.running; ready = s.ready ++ (f ∷ []); free = fs }
      → Change s s' start

-- The kernel's state stands for a state of the abstract machine.
abbrev pub Shows : Kernel → Spec → Type 0
Shows k s = Population k s.running s.ready s.free

-- What can happen: the running task works on its own, the clock ticks, or the task makes one of the
-- calls that concern tasks and has what the call needs.
pub data Event (show_clock : ℕ → Console → Console) (k : Kernel) : Kernel → Type 0 where
  works :
      (esp ebp : ℕ) (word : ℕ → ℕ) → CanEnter k esp ebp → Event show_clock k (enter k esp ebp word)
  ticks : InFrame k → Event show_clock k (clock_routine show_clock k)
  yields :
      InFrame k → list_empty k.links k.at.readyqueue ≡ false → Event show_clock k (sys_yield k).1
  exits :
      list_empty k.links k.at.readyqueue ≡ false
      → (k.task (current k)).heap_start_proc ≤ heap_pointer k (current k)
      → Event show_clock k (sys_exit k)
  ends_thread : list_empty k.links k.at.readyqueue ≡ false → Event show_clock k (sys_thread_exit k)
  creates :
      (function parameter wrapp tid : ℕ) {k' : Kernel}
      → list_empty k.links k.at.freequeue ≡ false
      → HasRoom k function parameter wrapp
      → sys_thread_create function parameter wrapp k ≡ some (tid, k')
      → Event show_clock k k'
  forks :
      (ret pid : ℕ) (g : ℕ → ℕ) {k' : Kernel}
      → list_empty k.links k.at.freequeue ≡ false
      → HasMemory k g
      → sys_fork ret k ≡ some (pid, k')
      → Event show_clock k k'

-- What the machine is to do at each event. A tick is a change of tasks where it uses up the quantum
-- and a task is ready.
unfoldable pub act_of :
    (show_clock : ℕ → Console → Console) (k k' : Kernel) → Event show_clock k k' → Act
act_of show_clock k k' (works esp ebp word can) = stay
act_of show_clock k k' (ticks frame) =
    if sub32 k.remaining_quantum 1 == 0 && not (list_empty k.links k.at.readyqueue)
    then rotate
    else stay
act_of show_clock k k' (yields frame some_task) = rotate
act_of show_clock k k' (exits some_task heap) = finish
act_of show_clock k k' (ends_thread some_task) = finish
act_of show_clock k k' (creates function parameter wrapp tid some_struct room done) = start
act_of show_clock k k' (forks ret pid g some_struct room done) = start

-- A queue that is not empty has a first node.
not_empty :
    (k : Kernel) (q : ℕ) (ts : List ℕ)
    → list_empty k.links q ≡ is_nil (nodes ts)
    → list_empty k.links q ≡ false
    → (t : ℕ) × (us : List ℕ) × (ts ≡ t ∷ us)
not_empty k q [] e h = cc
not_empty k q (t ∷ us) e h = (t, us, refl)

and_false : (b : Bool) → (b && false) ≡ false
and_false true = refl
and_false false = refl

state_of : {a b : ℕ × Kernel} → some a ≡ some b → a.1 ≡ b.1
state_of h = cc

module _ (show_clock : ℕ → Console → Console) where
  -- What one event does to the abstract machine, from the state that the kernel's state stands for.
  abbrev Moves : Kernel → Spec → Act → Type 0
  Moves k' s a = (s' : Spec) × Change s s' a × Shows k' s'

  abbrev spec_of : Kernel → (ts fs : List ℕ) → Spec
  spec_of k ts fs = record { running = current k; ready = ts; free = fs }

  Event-Moves :
      (k k' : Kernel) (ts fs : List ℕ)
      → Population k (current k) ts fs
      → (e : Event show_clock k k') → Moves k' (spec_of k ts fs) (act_of show_clock k k' e)
  unfolding sys_yield current act_of
  Event-Moves k k' ts fs p (works esp ebp word can) = (
    spec_of k ts fs,
    stays refl,
    record {
      turn = Turn-enter k (current k) ts esp ebp word p.turn can;
      free = p.free;
      heads = p.heads;
      busy_slots = p.busy_slots;
      free_slots = p.free_slots;
      free_distinct = p.free_distinct;
      apart = p.apart;
    },
  )
  Event-Moves k k' [] fs p (ticks frame) =
      rw
        (
          list_empty_iff k.links k.at.readyqueue [] p.turn.queue,
          and_false (sub32 k.remaining_quantum 1 == 0),
          act_of,
        )
        (spec_of k [] fs, stays refl, tick_alone-Population show_clock k fs p)
  Event-Moves k k' (t ∷ ts) fs p (ticks frame) =
      let some_task = list_empty_iff k.links k.at.readyqueue (nodes (t ∷ ts)) p.turn.queue in
      elim (ℕ_discrete (sub32 k.remaining_quantum 1) 0) [
        | no more ↦
            let within : (sub32 k.remaining_quantum 1 == 0) ≡ false = ground (arith, more) in
            rw (some_task, within, act_of)
              (
                spec_of k (t ∷ ts) fs,
                stays refl,
                tick_within-Population show_clock k t ts fs p frame more,
              )
        | yes over ↦
            let expired : (sub32 k.remaining_quantum 1 == 0) ≡ true = ground (arith, over) in
            rw (some_task, expired, act_of)
              (
                record { running = t; ready = ts ++ (current k ∷ []); free = fs },
                rotates t ts refl refl,
                tick_expired-Population show_clock k t ts fs p frame over,
              )
      ]
  Event-Moves k k' ts fs p (yields frame some_task) =
      let (t, us, e) =
        not_empty k k.at.readyqueue ts
          (list_empty_iff k.links k.at.readyqueue (nodes ts) p.turn.queue) some_task in
      (
        record { running = t; ready = us ++ (current k ∷ []); free = fs },
        rotates t us e refl,
        yield-Population k t us fs (subst (λ l. Population k (current k) l fs) e p) frame,
      )
  Event-Moves k k' ts fs p (exits some_task heap) =
      let (t, us, e) =
        not_empty k k.at.readyqueue ts
          (list_empty_iff k.links k.at.readyqueue (nodes ts) p.turn.queue) some_task in
      (
        record { running = t; ready = us; free = fs ++ (current k ∷ []) },
        ends t us e refl,
        exit-Population k t us fs (subst (λ l. Population k (current k) l fs) e p) heap,
      )
  Event-Moves k k' ts fs p (ends_thread some_task) =
      let (t, us, e) =
        not_empty k k.at.readyqueue ts
          (list_empty_iff k.links k.at.readyqueue (nodes ts) p.turn.queue) some_task in
      (
        record { running = t; ready = us; free = fs ++ (current k ∷ []) },
        ends t us e refl,
        thread_exit-Population k t us fs (subst (λ l. Population k (current k) l fs) e p),
      )
  Event-Moves k k' ts fs p (creates function parameter wrapp tid some_struct room done) =
      let (f, us, e) =
        not_empty k k.at.freequeue fs (list_empty_iff k.links k.at.freequeue (nodes fs) p.free)
          some_struct in
      let (r, done', q) =
        thread_create-Population k function parameter wrapp f ts us
          (subst (λ l. Population k (current k) ts l) e p) room in
      (
        record { running = current k; ready = ts ++ (f ∷ []); free = us },
        starts f us e refl,
        subst (λ z. Population z (current k) (ts ++ (f ∷ [])) us) (state_of (sym done' ∙ done)) q,
      )
  Event-Moves k k' ts fs p (forks ret pid g some_struct room done) =
      let (f, us, e) =
        not_empty k k.at.freequeue fs (list_empty_iff k.links k.at.freequeue (nodes fs) p.free)
          some_struct in
      let (pid', k1, done', q) =
        fork-Population ret k f ts us g (subst (λ l. Population k (current k) ts l) e p) room in
      (
        record { running = current k; ready = ts ++ (f ∷ []); free = us },
        starts f us e refl,
        subst (λ z. Population z (current k) (ts ++ (f ∷ [])) us) (state_of (sym done' ∙ done)) q,
      )

  -- Each event of the kernel is the one move of the abstract machine that is meant by it. When the
  -- kernel's state stands for a state of the machine, the state after the event stands for: the same
  -- state, if the task works on its own or the clock ticks within the quantum or with no other task
  -- ready; the state in which the running task and the first ready one have changed places, if a tick
  -- ends the quantum or the task yields; the one in which the running task has ended, if it exits or
  -- its thread does; and the one in which the first free struct is a ready task, if the running task
  -- creates a thread or forks.
  pub Event-Change :
      (k k' : Kernel) (s : Spec)
      → Shows k s
      → (e : Event show_clock k k')
      → (s' : Spec) × Change s s' (act_of show_clock k k' e) × Shows k' s'
  Event-Change k k' s p e =
      let act = act_of show_clock k k' e in
      subst (λ c. Moves k' (record { running = c; ready = s.ready; free = s.free }) act) p.turn.now
        (Event-Moves k k' s.ready s.free
          (subst (λ c. Population k c s.ready s.free) (sym p.turn.now) p) e)

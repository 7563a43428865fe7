-- ===== src/Sched/Policy.antt =====
-- The round-robin policy: who runs after a clock tick or a yield.
use zeos_soa.Base.{ℕ, ◌+◌, ◌≡◌, ◌≢◌, refl, sym, ap, subst, List, [], ◌∷◌, ◌++◌, Fresh, arith, sub32}
use zeos_soa.KernelList.{list_add_tail}
use zeos_soa.KernelList.Ring.{IsRing, list_empty_iff}
use zeos_soa.KernelList.Insert.{list_add_tail-IsRing}
use zeos_soa.Kernel.{
  Kernel, st_run, st_ready, system, list_of, list_head_to_task_struct, current, set_state,
  set_links, get_ticks, update_stats, get_quantum,
}
use zeos_soa.Sched.{
  update_process_state_rr, update_sched_data_rr, needs_sched_rr, sched_next_rr, schedule,
  force_task_switch,
}
use zeos_soa.Sched.Switch.{Runs, sched_next_rr-cons}

-- The running task steps back behind the others.
abbrev pub step_back : Kernel → Kernel
step_back k =
    let c = current k in
    set_state
      (update_stats (set_links k (list_add_tail k.links (list_of c) k.at.readyqueue)) c system) c
      st_ready

update_process_state_rr-running :
    (k : Kernel)
    → (k.task (current k)).state ≡ st_run
    → k.at.readyqueue ≢ 0
    → update_process_state_rr k (current k) k.at.readyqueue ≡ step_back k
unfolding update_process_state_rr
update_process_state_rr-running k running there = ground arith

pub links-step_back :
    (k : Kernel) → (step_back k).links ≡ list_add_tail k.links (list_of (current k)) k.at.readyqueue
unfolding update_stats
links-step_back k = refl

-- A task runs, another waits at the head of the ready queue, and the node of the one that runs is
-- in no place of that queue.
pub record CanRotate (k : Kernel) (e : ℕ) (es : List ℕ) : Type 0 where
  pub ring : IsRing k.links k.at.readyqueue (e ∷ es)
  pub running : (k.task (current k)).state ≡ st_run
  pub there : k.at.readyqueue ≢ 0
  pub apart : list_of (current k) ≢ k.at.readyqueue
  pub fresh : Fresh (list_of (current k)) (e ∷ es)
  pub other : list_head_to_task_struct e ≢ current k

-- `k'` is `k` after the task at `t` took the processor from the one that ran, whose node waits
-- behind the nodes `es`.
pub record Rotated (k k' : Kernel) (t : ℕ) (es : List ℕ) : Type 0 where
  pub stack : k'.esp ≡ (k.task t).register_esp + 8
  pub state : (k'.task t).state ≡ st_run
  pub quantum : k'.remaining_quantum ≡ (k.task t).total_quantum
  pub address_space : k'.cr3 ≡ (k.task t).dir_pages_base_addr
  pub waits : (k'.task (current k)).state ≡ st_ready
  pub saved : (k'.task (current k)).register_esp ≡ k.ebp
  pub queue : IsRing k'.links k.at.readyqueue (es ++ (list_of (current k) ∷ []))

pub force_task_switch-eq :
    (k : Kernel)
    → (k.task (current k)).state ≡ st_run
    → k.at.readyqueue ≢ 0
    → force_task_switch k ≡ sched_next_rr (step_back k)
unfolding force_task_switch
force_task_switch-eq k running there =
    ap sched_next_rr (update_process_state_rr-running k running there)

Rotated-step_back :
    (k k' : Kernel) (t : ℕ) (es : List ℕ)
    → Runs (step_back k) k' t
    → IsRing k'.links k.at.readyqueue (es ++ (list_of (current k) ∷ []))
    → t ≢ current k
    → Rotated k k' t es
unfolding update_stats get_ticks current
Rotated-step_back k k' t es r ring ne = record {
  stack = ground (arith, r.stack);
  state = r.state;
  quantum = ground (arith, r.quantum);
  address_space = ground (arith, r.address_space);
  waits = ground (arith, r.states (current k) (λ z. ne (sym z)));
  saved = r.saved;
  queue = ring;
}

-- `force_task_switch`, which `sys_yield` calls: the head of the ready queue runs, and the task that
-- yields goes to the tail.
pub force_task_switch-Rotated :
    (k : Kernel) (e : ℕ) (es : List ℕ)
    → CanRotate k e es
    → Rotated k (force_task_switch k) (list_head_to_task_struct e) es
unfolding update_stats
force_task_switch-Rotated k e es can =
    let eq = force_task_switch-eq k can.running can.there in
    let ring = list_add_tail-IsRing (list_of (current k)) can.ring can.apart can.fresh in
    let ring' =
      subst (λ l. IsRing l k.at.readyqueue (e ∷ (es ++ (list_of (current k) ∷ []))))
        (sym (links-step_back k)) ring in
    let s = sched_next_rr-cons (step_back k) e (es ++ (list_of (current k) ∷ [])) ring' in
    subst (λ q. Rotated k q (list_head_to_task_struct e) es) (sym eq)
      (Rotated-step_back k (sched_next_rr (step_back k)) (list_head_to_task_struct e) es s.0 s.1
        can.other)

-- A tick of the clock before the quantum ends switches nothing.
pub schedule_within :
    (k : Kernel)
    → sub32 k.remaining_quantum 1 ≢ 0
    → schedule k ≡ record k { remaining_quantum = sub32 k.remaining_quantum 1 }
unfolding schedule update_sched_data_rr needs_sched_rr
schedule_within k h = ground arith

-- When the quantum ends and no other task is ready, the running one gets a fresh quantum.
pub schedule_alone :
    (k : Kernel)
    → sub32 k.remaining_quantum 1 ≡ 0
    → IsRing k.links k.at.readyqueue []
    → schedule k ≡ record k { remaining_quantum = (k.task (current k)).total_quantum }
unfolding schedule update_sched_data_rr needs_sched_rr get_quantum current
schedule_alone k h r = ground (arith, list_empty_iff k.links k.at.readyqueue [] r)

pub schedule_expired :
    (k : Kernel) (e : ℕ) (es : List ℕ)
    → sub32 k.remaining_quantum 1 ≡ 0
    → IsRing k.links k.at.readyqueue (e ∷ es)
    → schedule k ≡ force_task_switch (record k { remaining_quantum = sub32 k.remaining_quantum 1 })
unfolding schedule update_sched_data_rr needs_sched_rr force_task_switch
schedule_expired k e es h r = ground (arith, list_empty_iff k.links k.at.readyqueue (e ∷ es) r)

-- When the quantum ends and a task is ready, the head of the ready queue runs and the running task
-- goes to the tail.
pub schedule-Rotated :
    (k : Kernel) (e : ℕ) (es : List ℕ)
    → sub32 k.remaining_quantum 1 ≡ 0
    → CanRotate k e es
    → Rotated k (schedule k) (list_head_to_task_struct e) es
unfolding current
schedule-Rotated k e es h can =
    let k' = record k { remaining_quantum = sub32 k.remaining_quantum 1 } in
    let can' : CanRotate k' e es = record {
      ring = can.ring;
      running = can.running;
      there = can.there;
      apart = can.apart;
      fresh = can.fresh;
      other = can.other;
    } in
    let r = force_task_switch-Rotated k' e es can' in
    subst (λ q. Rotated k q (list_head_to_task_struct e) es)
      (sym (schedule_expired k e es h can.ring))
      (record {
        stack = r.stack;
        state = r.state;
        quantum = r.quantum;
        address_space = r.address_space;
        waits = r.waits;
        saved = r.saved;
        queue = r.queue;
      })

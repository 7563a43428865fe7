-- ===== src/Sched/Switch.antt =====
-- What a switch of tasks does to the kernel's state.
use zeos_soa.Base.{
  ℕ, ◌+◌, ◌%◌, ◌^◌, ◌≤◌, ◌<◌, ◌≡◌, ◌≢◌, refl, sym, ap, ◌∙◌, subst, List, [], ◌∷◌, Disjoint, arith,
  add32,
}
use zeos_soa.KernelList.{Links, list_del}
use zeos_soa.KernelList.Ring.{IsRing, list_empty_iff, list_first-IsRing}
use zeos_soa.KernelList.Delete.{list_del-IsRing, list_del-frame}
use zeos_soa.Kernel.{
  Kernel, st_run, list_head_to_task_struct, current, kernel_stack_size, stack_at, set_links,
  get_ticks, update_stats, get_dir, get_quantum,
}
use zeos_soa.Sched.{switch_stack, inner_task_switch, pick_next, run_next, sched_next_rr}

-- `k'` is `k` after the processor went over to the task at `t`.
pub record Runs (k k' : Kernel) (t : ℕ) : Type 0 where
  pub stack : k'.esp ≡ (k.task t).register_esp + 8
  pub state : (k'.task t).state ≡ st_run
  pub quantum : k'.remaining_quantum ≡ (k.task t).total_quantum
  pub address_space : k'.cr3 ≡ (k.task t).dir_pages_base_addr
  pub tss : k'.tss_esp0 ≡ stack_at t kernel_stack_size
  pub msr : k'.msr_esp ≡ stack_at t kernel_stack_size
  pub saved : (k'.task (current k)).register_esp ≡ k.ebp
  pub counted : (k'.task t).p_stats.total_trans ≡ add32 (k.task t).p_stats.total_trans 1
  pub states : (u : ℕ) → u ≢ t → (k'.task u).state ≡ (k.task u).state
  pub others : (u : ℕ) → u ≢ t → u ≢ current k → k'.task u ≡ k.task u

run_next-Runs : (k : Kernel) (t : ℕ) → Runs k (run_next k t) t
unfolding run_next inner_task_switch switch_stack current update_stats get_ticks get_dir get_quantum
run_next-Runs k t = record {
  stack = ground arith;
  state = ground arith;
  quantum = ground arith;
  address_space = ground arith;
  tss = refl;
  msr = refl;
  saved = ground arith;
  counted = ground arith;
  states = λ u a. ground arith;
  others = λ u a b. ground arith;
}

-- The fields that a switch leaves alone.
pub run_next-frame :
    (k : Kernel) (t : ℕ)
    → ((run_next k t).links ≡ k.links)
      × ((run_next k t).at ≡ k.at)
      × ((run_next k t).sem ≡ k.sem)
      × ((run_next k t).page_mem ≡ k.page_mem)
      × ((run_next k t).phys_mem ≡ k.phys_mem)
unfolding run_next inner_task_switch switch_stack current update_stats get_ticks get_dir get_quantum
run_next-frame k t = (refl, refl, refl, refl, refl)

pick_next-cons :
    (k : Kernel) (e : ℕ) (es : List ℕ)
    → IsRing k.links k.at.readyqueue (e ∷ es)
    → pick_next k ≡ (list_head_to_task_struct e, set_links k (list_del k.links e))
unfolding pick_next
pick_next-cons k e es r =
    rw (list_empty_iff k.links k.at.readyqueue (e ∷ es) r, list_first-IsRing r)

pick_next-nil : (k : Kernel) → IsRing k.links k.at.readyqueue [] → pick_next k ≡ (k.idle_task, k)
unfolding pick_next
pick_next-nil k r = rw (list_empty_iff k.links k.at.readyqueue [] r)

pub sched_next_rr-eq-run_next :
    (k : Kernel) (e : ℕ) (es : List ℕ)
    → IsRing k.links k.at.readyqueue (e ∷ es)
    → sched_next_rr k ≡ run_next (set_links k (list_del k.links e)) (list_head_to_task_struct e)
unfolding sched_next_rr
sched_next_rr-eq-run_next k e es r = rw (pick_next-cons k e es r)

-- A change of the links is no part of what a switch says of the other fields.
Runs-set_links : (k : Kernel) (l : Links) (t : ℕ) → Runs k (run_next (set_links k l) t) t
unfolding current
Runs-set_links k l t =
    let r = run_next-Runs (set_links k l) t in
    record {
      stack = r.stack;
      state = r.state;
      quantum = r.quantum;
      address_space = r.address_space;
      tss = r.tss;
      msr = r.msr;
      saved = r.saved;
      counted = r.counted;
      states = r.states;
      others = r.others;
    }

-- With a task ready, `sched_next_rr` runs the one at the head of the ready queue and takes its
-- node out of the queue; a list that shares nothing with the queue stays as it was, and so do
-- the semaphores.
pub sched_next_rr-cons :
    (k : Kernel) (e : ℕ) (es : List ℕ)
    → IsRing k.links k.at.readyqueue (e ∷ es)
    → Runs k (sched_next_rr k) (list_head_to_task_struct e)
      × IsRing (sched_next_rr k).links k.at.readyqueue es
      × ((other : ℕ) (zs : List ℕ)
          → IsRing k.links other zs
          → Disjoint (k.at.readyqueue ∷ e ∷ es) (other ∷ zs)
          → IsRing (sched_next_rr k).links other zs)
      × ((sched_next_rr k).sem ≡ k.sem)
sched_next_rr-cons k e es r =
    let k' = set_links k (list_del k.links e) in
    let t = list_head_to_task_struct e in
    let eq = sched_next_rr-eq-run_next k e es r in
    let links : (sched_next_rr k).links ≡ list_del k.links e =
      ap (λ q. q.links) eq ∙ (run_next-frame k' t).0 in
    (
      subst (λ q. Runs k q t) (sym eq) (Runs-set_links k (list_del k.links e) t),
      subst (λ l. IsRing l k.at.readyqueue es) (sym links) (list_del-IsRing [] e es r),
      λ other zs o d. subst (λ l. IsRing l other zs) (sym links) (list_del-frame [] e es r o d),
      ap (λ q. q.sem) eq ∙ (run_next-frame k' t).2,
    )

-- With no task ready, `sched_next_rr` runs the idle task and changes no list.
pub sched_next_rr-nil :
    (k : Kernel)
    → IsRing k.links k.at.readyqueue []
    → Runs k (sched_next_rr k) k.idle_task × ((sched_next_rr k).links ≡ k.links)
unfolding sched_next_rr
sched_next_rr-nil k r =
    rw (pick_next-nil k r) (run_next-Runs k k.idle_task, (run_next-frame k k.idle_task).0)

-- A task's saved stack pointer lies in its own page, with room for the two words that
-- `switch_stack` pops.
abbrev pub OnStack : Kernel → ℕ → Type 0
OnStack k t =
    (t % 2 ^ 12 ≡ 0) × (t ≤ (k.task t).register_esp) × ((k.task t).register_esp + 4 < t + 2 ^ 12)

-- After a switch to a task whose saved stack pointer lies in its page, `current()` is that task.
pub Runs-current : (k k' : Kernel) (t : ℕ) → Runs k k' t → OnStack k t → current k' ≡ t
unfolding current
Runs-current k k' t r o = omega (arith, r.stack)

run_next-pid : (k : Kernel) (t u : ℕ) → ((run_next k t).task u).pid ≡ (k.task u).pid
unfolding run_next inner_task_switch switch_stack current update_stats get_ticks
run_next-pid k t u = ground arith

-- A switch to a ready task changes no PID, no page table and no frame mark.
pub sched_next_rr-memory :
    (k : Kernel) (e : ℕ) (es : List ℕ)
    → IsRing k.links k.at.readyqueue (e ∷ es)
    → ((u : ℕ) → ((sched_next_rr k).task u).pid ≡ (k.task u).pid)
      × ((sched_next_rr k).page_mem ≡ k.page_mem)
      × ((sched_next_rr k).phys_mem ≡ k.phys_mem)
sched_next_rr-memory k e es r =
    let k' = set_links k (list_del k.links e) in
    let t = list_head_to_task_struct e in
    let eq = sched_next_rr-eq-run_next k e es r in
    let f = run_next-frame k' t in
    (
      λ u. ap (λ q. (q.task u).pid) eq ∙ run_next-pid k' t u,
      ap (λ q. q.page_mem) eq ∙ f.3,
      ap (λ q. q.phys_mem) eq ∙ f.4,
    )

-- ===== src/Sched/Alone.antt =====
-- A yield when no other task is ready, sched.c.
use zeos_soa.Base.{◌+◌, ◌≡◌, ◌≢◌, sym, subst, [], ◌∷◌, arith}
use zeos_soa.KernelList.Ring.{IsRing}
use zeos_soa.KernelList.Insert.{list_add_tail-IsRing}
use zeos_soa.Kernel.{
  Kernel, st_run, list_of, list_head_to_task_struct, current, get_ticks, update_stats,
}
use zeos_soa.Sched.{force_task_switch}
use zeos_soa.Sched.Switch.{sched_next_rr-cons}
use zeos_soa.Sched.Policy.{step_back, force_task_switch-eq, links-step_back}

-- With no other task ready, a yield switches the running task to itself. The stack it goes on with is
-- not the one that it has, but the one that it had when it last gave the processor away, and the
-- ready queue is empty again.
pub force_task_switch_alone :
    (k : Kernel)
    → (k.task (current k)).state ≡ st_run
    → k.at.readyqueue ≢ 0
    → IsRing k.links k.at.readyqueue []
    → list_of (current k) ≢ k.at.readyqueue
    → ((force_task_switch k).esp ≡ (k.task (current k)).register_esp + 8)
      × IsRing (force_task_switch k).links k.at.readyqueue []
unfolding current update_stats get_ticks list_head_to_task_struct
force_task_switch_alone k running there empty apart =
    let c = list_of (current k) in
    let ring =
      subst (λ l. IsRing l k.at.readyqueue (c ∷ [])) (sym (links-step_back k))
        (list_add_tail-IsRing c empty apart tt) in
    let (r, rest, _, _) = sched_next_rr-cons (step_back k) c [] ring in
    let self : list_head_to_task_struct c ≡ current k = omega arith in
    let same : ((step_back k).task (list_head_to_task_struct c)).register_esp
        ≡ (k.task (current k)).register_esp =
      subst (λ u. ((step_back k).task u).register_esp ≡ (k.task (current k)).register_esp)
        (sym self) (ground arith) in
    subst (λ q. (q.esp ≡ (k.task (current k)).register_esp + 8) × IsRing q.links k.at.readyqueue [])
      (sym (force_task_switch-eq k running there)) (omega (arith, r.stack, same), rest)

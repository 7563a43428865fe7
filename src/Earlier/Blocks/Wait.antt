-- ===== src/Earlier/Blocks/Wait.antt =====
-- `sys_block` of the earlier kernel.
use zeos_soa.Base.{
  ℕ, ◌+◌, ◌≡◌, ◌≢◌, refl, sym, ap, subst, ◌∙◌, List, [], ◌∷◌, ◌++◌, Fresh, Disjoint, Disjoint-symm,
  Disjoint-append, Bool, true, false, ◌||◌, ◌==◌, arith,
}
use zeos_soa.KernelList.{list_add_tail, list_del, list_empty, list_first}
use zeos_soa.KernelList.Ring.{IsRing, list_empty_iff, list_first-IsRing}
use zeos_soa.KernelList.Insert.{list_add_tail-IsRing, list_add_tail-frame}
use zeos_soa.KernelList.Delete.{list_del-IsRing, list_del-frame}
use zeos_soa.Kernel.{st_run, st_ready, st_blocked}
use zeos_soa.Earlier.{
  list_head_to_task_struct, Kernel, list_of, set_status, set_links, current, get_dir,
}
use zeos_soa.Earlier.Sched.{
  update_process_state_rr, inner_task_switch, sched_next_rr, needs_sched_rr, update_sched_data_rr,
  scheduler,
}
use zeos_soa.Earlier.Blocks.{sys_block}

or_true : (b : Bool) → (b || true) ≡ true
or_true true = refl
or_true false = refl

needs-blocked : (k : Kernel) → (k.task (current k)).status ≡ st_blocked → needs_sched_rr k ≡ true
unfolding needs_sched_rr
needs-blocked k blocked = rw (blocked) (or_true _)

-- A process that is blocked always gives way.
scheduler-blocked :
    (k : Kernel)
    → (k.task (current k)).status ≡ st_blocked
    → scheduler k ≡ sched_next_rr (update_sched_data_rr k)
unfolding scheduler update_sched_data_rr update_process_state_rr current
scheduler-blocked k blocked =
    let c = current k in
    let now = update_sched_data_rr k in
    let yes_switch : needs_sched_rr now ≡ true = needs-blocked now blocked in
    let same : update_process_state_rr now c k.at.readyqueue ≡ now =
      rw (blocked, update_process_state_rr) refl in
    rw (yes_switch, scheduler) (ap sched_next_rr same)

-- The task `t` at the head of the ready queue runs next.
abbrev chosen : Kernel → (e t : ℕ) → Kernel
chosen k e t = record (set_status (set_links k (list_del k.links e)) t st_run) {
  qticks = (k.task t).quantum;
}

-- The end of `sched_next_rr`.
abbrev run : Kernel → ℕ → Kernel
run k t = inner_task_switch (record k { qticks = (k.task t).quantum }) t

sched_next_rr-first :
    (k : Kernel)
    → list_empty k.links k.at.readyqueue ≡ false
    → let t = list_head_to_task_struct (list_first k.links k.at.readyqueue) in
      sched_next_rr k ≡ run (update_process_state_rr k t 0) t
unfolding sched_next_rr
sched_next_rr-first k some_task = rw (some_task, sched_next_rr) refl

leaves_queue :
    (k : Kernel) (t : ℕ)
    → (k.task t).status ≡ st_ready
    → update_process_state_rr k t 0
      ≡ set_status (set_links k (list_del k.links (list_of t))) t st_run
unfolding update_process_state_rr
leaves_queue k t ready = rw (ready, update_process_state_rr) refl

sched_next_rr-cons :
    (k : Kernel) (e : ℕ) (es : List ℕ)
    → IsRing k.links k.at.readyqueue (e ∷ es)
    → list_of (list_head_to_task_struct e) ≡ e
    → (k.task (list_head_to_task_struct e)).status ≡ st_ready
    → sched_next_rr k
      ≡ inner_task_switch (chosen k e (list_head_to_task_struct e)) (list_head_to_task_struct e)
sched_next_rr-cons k e es ring node ready =
    let t = list_head_to_task_struct e in
    let some_task = list_empty_iff k.links k.at.readyqueue (e ∷ es) ring in
    let quantum : ((set_status (set_links k (list_del k.links e)) t st_run).task t).quantum
        ≡ (k.task t).quantum =
      ground arith in
    sched_next_rr-first k some_task
    ∙ ap
        (λ f.
          run (update_process_state_rr k (list_head_to_task_struct f) 0)
            (list_head_to_task_struct f))
        (list_first-IsRing ring)
    ∙ ap (λ q. run q t) (leaves_queue k t ready)
    ∙ ap (λ n. run (set_status (set_links k (list_del k.links n)) t st_run) t) node
    ∙ ap
        (λ q.
          inner_task_switch
            (record (set_status (set_links k (list_del k.links e)) t st_run) { qticks = q }) t)
        quantum

-- The process that called is blocked, at the tail of the blocked queue, with its frame pointer kept,
-- and the task `t` runs on its own stack and address space for its quantum.
pub record Blocked (k k' : Kernel) (t : ℕ) (es bs : List ℕ) : Type 0 where
  pub status : (k'.task (current k)).status ≡ st_blocked
  pub saved : (k'.task (current k)).kernel_esp ≡ k.ebp
  pub stack : k'.esp ≡ (k.task t).kernel_esp + 8
  pub frame : k'.ebp ≡ k.word (k.task t).kernel_esp
  pub runs : (k'.task t).status ≡ st_run
  pub space : k'.cr3 ≡ (k.task t).dir_pages_base_addr
  pub quantum : k'.qticks ≡ (k.task t).quantum
  pub ready : IsRing k'.links k.at.readyqueue es
  pub blocked : IsRing k'.links k.at.blocked (bs ++ (list_of (current k) ∷ []))

-- The two queues are apart from each other and from the caller's node, and the first task that is
-- ready is another than the caller.
pub record CanBlock (k : Kernel) (e : ℕ) (es bs : List ℕ) : Type 0 where
  pub ready : IsRing k.links k.at.readyqueue (e ∷ es)
  pub blocked : IsRing k.links k.at.blocked bs
  pub apart : Disjoint (k.at.blocked ∷ bs) (k.at.readyqueue ∷ e ∷ es)
  pub not_ready : Fresh (list_of (current k)) (k.at.readyqueue ∷ e ∷ es)
  pub not_blocked : Fresh (list_of (current k)) (k.at.blocked ∷ bs)
  pub node : list_of (list_head_to_task_struct e) ≡ e
  pub is_ready : (k.task (list_head_to_task_struct e)).status ≡ st_ready
  pub other : list_head_to_task_struct e ≢ current k

-- The state in which `sys_block` calls the scheduler.
abbrev blocking : Kernel → Kernel
blocking k =
    set_links (set_status k (current k) st_blocked)
      (list_add_tail k.links (list_of (current k)) k.at.blocked)

sys_block-eq :
    (k : Kernel) (e : ℕ) (es bs : List ℕ)
    → CanBlock k e es bs
    → (k.task (current k)).pending_unblocks ≡ 0
    → let t = list_head_to_task_struct e in
      sys_block k ≡ inner_task_switch (chosen (update_sched_data_rr (blocking k)) e t) t
unfolding sys_block update_sched_data_rr current
sys_block-eq k e es bs can none =
    let t = list_head_to_task_struct e in
    let ready =
      list_add_tail-frame (list_of (current k)) can.blocked can.ready can.apart can.not_ready in
    let own : ((blocking k).task (current k)).status ≡ st_blocked = ground arith in
    let its : ((blocking k).task t).status ≡ st_ready = ground (arith, can.other, can.is_ready) in
    let stops : ((k.task (current k)).pending_unblocks == 0) ≡ true = ground arith in
    rw (stops, sys_block)
      (scheduler-blocked (blocking k) own
        ∙ sched_next_rr-cons (update_sched_data_rr (blocking k)) e es ready can.node its)

-- `sys_block` of the earlier kernel, without a pending unblock and with a task ready: the caller is
-- blocked, its frame pointer kept, at the tail of the blocked queue, and the first ready task leaves
-- its queue and runs with a fresh quantum.
pub sys_block-Blocked :
    (k : Kernel) (e : ℕ) (es bs : List ℕ)
    → CanBlock k e es bs
    → (k.task (current k)).pending_unblocks ≡ 0
    → Blocked k (sys_block k) (list_head_to_task_struct e) es bs
unfolding inner_task_switch get_dir update_sched_data_rr current
sys_block-Blocked k e es bs can none =
    let t = list_head_to_task_struct e in
    let c = current k in
    let n = list_of c in
    let l = list_add_tail k.links n k.at.blocked in
    let ready = list_add_tail-frame n can.blocked can.ready can.apart can.not_ready in
    let blocked = list_add_tail-IsRing n can.blocked can.not_blocked.0 can.not_blocked.1 in
    let apart : Disjoint (k.at.readyqueue ∷ e ∷ es) (k.at.blocked ∷ (bs ++ (n ∷ []))) =
      Disjoint-symm (k.at.blocked ∷ (bs ++ (n ∷ []))) (k.at.readyqueue ∷ e ∷ es) (
        Disjoint-append (k.at.blocked ∷ bs) (n ∷ []) (k.at.readyqueue ∷ e ∷ es) can.apart
          (can.not_ready, tt)) in
    subst (λ q. Blocked k q t es bs) (sym (sys_block-eq k e es bs can none))
      (record {
        status = ground (arith, can.other);
        saved = ground (arith, can.other);
        stack = ground (arith, can.other);
        frame = ground (arith, can.other);
        runs = ground (arith, can.other);
        space = ground (arith, can.other);
        quantum = ground (arith, can.other);
        ready = list_del-IsRing [] e es ready;
        blocked = list_del-frame [] e es ready blocked apart;
      })

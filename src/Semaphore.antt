-- ===== src/Semaphore.antt =====
-- sys.c: the semaphore calls. The semaphores of a process are an array of ten, shared by its threads.
pub mod Queues
pub mod Wait
pub mod Signal
pub mod Create
pub mod Destroy
pub mod Balance
use zeos_soa.Base.{
  ℕ, zero, suc, ◌+◌, ◌-◌, Bool, true, false, not, ◌&&◌, ◌||◌, List, [], ◌∷◌, ◌==◌, ltb,
  if◌then◌else◌, neg, is_neg, add32, sub32, update,
}
use zeos_soa.KernelList.{init_list_head, list_add, list_add_tail, list_del, list_empty, list_first}
use zeos_soa.Io.{printk}
use zeos_soa.Kernel.{
  Kernel, Sem, st_ready, st_blocked, list_of, list_head_to_task_struct, current, set_state,
  set_links,
}
use zeos_soa.Sched.{num_sem, sem_at, blocked_of, sched_next_rr}

-- `&current()->semafors[i]`.
abbrev pub my_sem : Kernel → ℕ → ℕ
my_sem k i = sem_at (k.task (current k)).semafors i

abbrev pub set_sem : Kernel → ℕ → Sem → Kernel
set_sem k s v = record k { sem = update k.sem s v }

abbrev pub print : Kernel → List ℕ → Kernel
print k cs = record k { console = printk k.console cs }

-- The loop of `sys_semCreate`: the first free semaphore of the array is taken.
unfoldable pub sem_create_loop : ℕ → (i value : ℕ) → Kernel → ℕ × Kernel
sem_create_loop zero i value k = (neg 1, k)
sem_create_loop (suc n) i value k =
    let s = my_sem k i in
    elim ((k.sem s).semid == neg 1) [
      | true ↦
          let k' =
            set_sem k s (record { semid = i; count = value; pid = (k.task (current k)).pid }) in
          (i, set_links k' (init_list_head k'.links (blocked_of s)))
      | false ↦ sem_create_loop n (i + 1) value k
    ]

unfoldable pub sys_sem_create : Kernel → (value : ℕ) → ℕ × Kernel
sys_sem_create k value = sem_create_loop num_sem 0 value k

-- The three tests at the head of the other calls. `semID > 10` lets index 10 pass.
unfoldable pub refused : Kernel → (sem_id : ℕ) → Bool
refused k sem_id =
    let s = k.sem (my_sem k sem_id) in
    ((not (is_neg sem_id) && ltb 10 sem_id) || is_neg sem_id)
    || (not (s.pid == (k.task (current k)).pid) || not (s.semid == sem_id))

-- "bloqueamos\n" and "Desbloqueamos\n".
abbrev pub blocking_text : List ℕ
blocking_text = b'b' ∷ b'l' ∷ b'o' ∷ b'q' ∷ b'u' ∷ b'e' ∷ b'a' ∷ b'm' ∷ b'o' ∷ b's' ∷ b'\n' ∷ []

abbrev pub unblocking_text : List ℕ
unblocking_text =
    b'D' ∷ b'e' ∷ b's' ∷ b'b' ∷ b'l' ∷ b'o' ∷ b'q' ∷ b'u' ∷ b'e' ∷ b'a' ∷ b'm' ∷ b'o' ∷ b's' ∷ b'\n'
    ∷ []

-- The caller blocks on the semaphore at `s` and another task runs.
unfoldable pub block_on : Kernel → (s : ℕ) → Kernel
block_on k s =
    let k = print k blocking_text in
    let c = current k in
    let k = set_state k c st_blocked in
    sched_next_rr (set_links k (list_add k.links (list_of c) (blocked_of s)))

-- A blocked caller gets the result when it runs again.
unfoldable pub sys_sem_wait : Kernel → (sem_id : ℕ) → ℕ × Kernel
sys_sem_wait k sem_id =
    if refused k sem_id
    then (neg 1, k)
    else let s = my_sem k sem_id in
      let k = set_sem k s (record (k.sem s) { count = sub32 (k.sem s).count 1 }) in
      (0, if is_neg (k.sem s).count then block_on k s else k)

-- The first task that is blocked on the semaphore at `s` becomes ready.
unfoldable pub unblock_first : Kernel → (s : ℕ) → Kernel
unblock_first k s =
    let l = list_first k.links (blocked_of s) in
    let k = set_links k (list_del k.links l) in
    let k = set_state k (list_head_to_task_struct l) st_ready in
    set_links k (list_add k.links l k.at.readyqueue)

unfoldable pub sys_sem_signal : Kernel → (sem_id : ℕ) → ℕ × Kernel
sys_sem_signal k sem_id =
    if refused k sem_id
    then (neg 1, k)
    else let s = my_sem k sem_id in
      let k = set_sem k s (record (k.sem s) { count = add32 (k.sem s).count 1 }) in
      (0, if is_neg (k.sem s).count || (k.sem s).count == 0 then unblock_first k s else k)

-- One round of the loop of `sys_semDestroy`.
unfoldable pub release_one : Kernel → (s : ℕ) → Kernel
release_one k s =
    let l = list_first k.links (blocked_of s) in
    let k = set_links k (list_del k.links l) in
    let t = list_head_to_task_struct l in
    let k = set_state k t st_ready in
    let k = set_links k (list_add_tail k.links (list_of t) k.at.readyqueue) in
    print k unblocking_text

-- The loop runs until no task is blocked, on fuel.
unfoldable pub release_loop : ℕ → Kernel → (s : ℕ) → Kernel
release_loop zero k s = k
release_loop (suc n) k s = elim (list_empty k.links (blocked_of s)) [
  | true ↦ k
  | false ↦ release_loop n (release_one k s) s
]

-- No more tasks than the task array holds can be blocked: one round for each, and one for the test.
abbrev pub release_fuel : ℕ
release_fuel = 11

unfoldable pub sys_sem_destroy : Kernel → (sem_id : ℕ) → ℕ × Kernel
sys_sem_destroy k sem_id =
    if refused k sem_id
    then (neg 1, k)
    else let s = my_sem k sem_id in
      let k = release_loop release_fuel k s in
      (0, set_sem k s (record { semid = neg 1; count = 0; pid = neg 1 }))

-- ===== src/Sched/Sems.antt =====
-- The loop that resets the semaphores of an array, which boot and `sys_fork` run.
use zeos_soa.Base.{ℕ, zero, suc, ◌+◌, ◌≤◌, ◌<◌, ◌≡◌, ◌∙◌, refl, ap, List, [], ◌∷◌, Fresh, arith}
use native.Mathlib.Decide.{dec_lt}
use zeos_soa.KernelList.{init_list_head}
use zeos_soa.KernelList.Ring.{IsRing, IsRing-set_prev-set_next}
use zeos_soa.KernelList.Insert.{init_list_head-IsRing}
use zeos_soa.Kernel.{Kernel}
use zeos_soa.Sched.{num_sem, init_sems_loop, sem_at, blocked_of, free_sem}

-- The heads of the semaphores at `semafors` are none of the nodes of `xs`.
abbrev pub SemsApart : (semafors : ℕ) → List ℕ → Type 0
SemsApart semafors xs = (j : ℕ) → j < num_sem → Fresh (blocked_of (sem_at semafors j)) xs

pub init_sems_loop-IsRing :
    (n s i : ℕ) (k : Kernel) (head : ℕ) (xs : List ℕ)
    → ((j : ℕ) → i ≤ j → j < i + n → Fresh (blocked_of (sem_at s j)) (head ∷ xs))
    → IsRing k.links head xs
    → IsRing (init_sems_loop n s i k).links head xs
unfolding init_sems_loop init_list_head
init_sems_loop-IsRing zero s i k head xs h r = r
init_sems_loop-IsRing (suc n) s i k head xs h r =
    let b = blocked_of (sem_at s i) in
    let fresh = h i (omega arith) (omega arith) in
    init_sems_loop-IsRing n s (i + 1) _ head xs (λ j l u. h j (omega arith) (omega arith))
      (IsRing-set_prev-set_next b b b r fresh.0 fresh.1)

pub init_sems_loop-rest :
    (n s i : ℕ) (k : Kernel)
    → init_sems_loop n s i k
      ≡ record k { sem = (init_sems_loop n s i k).sem; links = (init_sems_loop n s i k).links }
unfolding init_sems_loop
init_sems_loop-rest zero s i k = refl
init_sems_loop-rest (suc n) s i k =
    ap
      (λ (q : Kernel). record q {
        sem = (init_sems_loop (suc n) s i k).sem;
        links = (init_sems_loop (suc n) s i k).links;
      })
      (init_sems_loop-rest n s (i + 1) _)

-- The loop leaves the semaphores before the `i`-th alone.
sem-init_sems_loop_before :
    (n s i j : ℕ) (k : Kernel)
    → j < i
    → (init_sems_loop n s i k).sem (sem_at s j) ≡ k.sem (sem_at s j)
unfolding init_sems_loop
sem-init_sems_loop_before zero s i j k h = refl
sem-init_sems_loop_before (suc n) s i j k h =
    sem-init_sems_loop_before n s (i + 1) j _ (omega arith) ∙ ground arith

-- Each semaphore that the loop comes to is free after it.
pub sem-init_sems_loop :
    (n s i j : ℕ) (k : Kernel)
    → i ≤ j
    → j < i + n
    → (init_sems_loop n s i k).sem (sem_at s j) ≡ free_sem
unfolding init_sems_loop
sem-init_sems_loop zero s i j k l u = absurd (omega arith)
sem-init_sems_loop (suc n) s i j k l u = elim (dec_lt i j) [
  | yes later ↦ sem-init_sems_loop n s (i + 1) j _ (omega arith) (omega arith)
  | no this ↦
      let e : j ≡ i = omega arith in
      rw e (sem-init_sems_loop_before n s (i + 1) i _ (omega arith) ∙ ground arith)
]

-- No task waits for any of the semaphores that the loop came to.
pub init_sems_loop_empty :
    (n s i j : ℕ) (k : Kernel)
    → i ≤ j
    → j < i + n
    → IsRing (init_sems_loop n s i k).links (blocked_of (sem_at s j)) []
unfolding init_sems_loop
init_sems_loop_empty zero s i j k l u = absurd (omega arith)
init_sems_loop_empty (suc n) s i j k l u = elim (dec_lt i j) [
  | yes later ↦ init_sems_loop_empty n s (i + 1) j _ (omega arith) (omega arith)
  | no this ↦
      let e : j ≡ i = omega arith in
      rw e (
        init_sems_loop-IsRing n s (i + 1) _ (blocked_of (sem_at s i)) []
          (λ m a b. ((λ q. absurd (omega arith)), tt))
          (init_list_head-IsRing k.links (blocked_of (sem_at s i))))
]

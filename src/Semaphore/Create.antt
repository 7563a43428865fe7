-- ===== src/Semaphore/Create.antt =====
-- `sys_semCreate`.
use zeos_soa.Base.{
  ℕ, zero, suc, ◌+◌, ◌≤◌, ◌<◌, ◌≡◌, ◌⊎◌, inl, inr, refl, [], arith, ◌==◌, neg, update, Bool-cases,
}
use native.Mathlib.Decide.{dec_lt}
use zeos_soa.KernelList.Ring.{IsRing}
use zeos_soa.KernelList.Insert.{init_list_head-IsRing}
use zeos_soa.Kernel.{Kernel, current}
use zeos_soa.Sched.{num_sem, blocked_of}
use zeos_soa.Semaphore.{my_sem, sem_create_loop, sys_sem_create}

-- Semaphore `i` of the caller is not in use.
abbrev pub IsFree : Kernel → ℕ → Type 0
IsFree k i = (k.sem (my_sem k i)).semid ≡ neg 1

-- Semaphore `i`, the first free one from `from` on, now belongs to the caller's process, has the
-- value for its count and nobody blocked.
pub record Created (k : Kernel) (from value i : ℕ) (r : ℕ × Kernel) : Type 0 where
  pub free : IsFree k i
  pub first : (j : ℕ) → from ≤ j → j < i → ¬ IsFree k j
  pub result : r.0 ≡ i
  pub made :
      r.1.sem
      ≡ update k.sem
          (my_sem k i)
          (record { semid = i; count = value; pid = (k.task (current k)).pid })
  pub queue : IsRing r.1.links (blocked_of (my_sem k i)) []

pub record NoneFree (k : Kernel) (from to : ℕ) (r : ℕ × Kernel) : Type 0 where
  pub used : (j : ℕ) → from ≤ j → j < to → ¬ IsFree k j
  pub result : r ≡ (neg 1, k)

used_from :
    (k : Kernel) (i m : ℕ)
    → ¬ IsFree k i
    → ((j : ℕ) → i + 1 ≤ j → j < m → ¬ IsFree k j)
    → (j : ℕ) → i ≤ j
    → j < m
    → ¬ IsFree k j
used_from k i m here later j a b e = elim (dec_lt i j) [
  | yes l ↦ later j (omega arith) b e
  | no n ↦ let z : i ≡ j = omega arith in here (rw z e)
]

sem_create_loop-cases :
    (n i value : ℕ) (k : Kernel)
    → ((j : ℕ) × (i ≤ j) × (j < i + n) × Created k i value j (sem_create_loop n i value k))
      ⊎ NoneFree k i (i + n) (sem_create_loop n i value k)
unfolding sem_create_loop
sem_create_loop-cases zero i value k =
    inr (record { used = λ j a b. absurd (omega arith); result = refl })
sem_create_loop-cases (suc n) i value k = elim (Bool-cases ((k.sem (my_sem k i)).semid == neg 1)) [
  | inl hit ↦ inl (
    i,
    omega arith,
    omega arith,
    rw (hit, sem_create_loop)
        (record {
          free = ground arith;
          first = λ j a b. absurd (omega arith);
          result = refl;
          made = refl;
          queue = init_list_head-IsRing k.links (blocked_of (my_sem k i));
        }),
  )
  | inr miss ↦
      let used : ¬ IsFree k i = ground arith in
      elim (sem_create_loop-cases n (i + 1) value k) [
        | inl (j, lo, hi, made) ↦ inl (
          j,
          omega arith,
          omega arith,
          rw (miss, sem_create_loop)
              (record {
                free = made.free;
                first = used_from k i j used made.first;
                result = made.result;
                made = made.made;
                queue = made.queue;
              }),
        )
        | inr full ↦
            let z : i + suc n ≡ i + 1 + n = omega arith in
            inr (
              rw (miss, sem_create_loop)
                (record {
                  used = λ j a b. used_from k i (i + 1 + n) used full.used j a (omega arith);
                  result = full.result;
                }))
      ]
]

-- `sys_semCreate` takes the first of the ten semaphores that is not in use, gives it the value as
-- its count and no blocked tasks, and returns its index; if all ten are in use it returns -1 and
-- changes nothing.
pub sys_sem_create-cases :
    (k : Kernel) (value : ℕ)
    → ((i : ℕ) × (i < num_sem) × Created k 0 value i (sys_sem_create k value))
      ⊎ NoneFree k 0 num_sem (sys_sem_create k value)
unfolding sys_sem_create
sys_sem_create-cases k value = elim (sem_create_loop-cases num_sem 0 value k) [
  | inl (i, lo, hi, made) ↦ inl (i, hi, made)
  | inr full ↦ inr full
]

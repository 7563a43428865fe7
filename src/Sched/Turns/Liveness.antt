-- ===== src/Sched/Turns/Liveness.antt =====
-- No starvation: how long a task waits for the processor.
use mathlib.Core.List.{append_assoc}
use zeos_soa.Base.{ℕ, zero, suc, ◌+◌, ◌≤◌, ◌≡◌, inl, inr, refl, subst, List, [], ◌∷◌, ◌++◌, arith}
use zeos_soa.Io.{Console}
use zeos_soa.Kernel.{Kernel, current}
use zeos_soa.Sched.Turns.{Turn, Step}
use zeos_soa.Sched.Turns.Fair.{Step-Moved}

-- The quanta of the tasks together.
abbrev pub quanta_of : Kernel → List ℕ → ℕ
quanta_of k [] = 0
quanta_of k (t ∷ ts) = (k.task t).total_quantum + quanta_of k ts

quanta_of-kept :
    (k k' : Kernel) (ts : List ℕ)
    → ((u : ℕ) → (k'.task u).total_quantum ≡ (k.task u).total_quantum)
    → quanta_of k' ts ≡ quanta_of k ts
quanta_of-kept k k' [] h = refl
quanta_of-kept k k' (t ∷ ts) h = omega (arith, h t, quanta_of-kept k k' ts h)

module _ (show_clock : ℕ → Console → Console) where
  -- In a run of the kernel that goes on entry after entry, ticks and yields in any order, a task that
  -- waits in the ready queue gets the processor: at the latest after as many entries as the running
  -- task has ticks left and the tasks before it in the queue have in their quanta.
  pub runs_eventually :
      (n : ℕ) (f : ℕ → Kernel) (c : ℕ) (before : List ℕ) (t : ℕ) (after : List ℕ)
      → ((i : ℕ) → Step show_clock (f i) (f (suc i)))
      → Turn (f 0) c (before ++ (t ∷ after))
      → (f 0).remaining_quantum + quanta_of (f 0) before ≤ n
      → (m : ℕ) × (m ≤ n) × (current (f m) ≡ t)
  runs_eventually zero f c before t after steps turn enough =
      absurd (omega (arith, turn.budget, enough))
  runs_eventually (suc n) f c [] t after steps turn enough =
      let moved = Step-Moved show_clock (f 0) (f 1) c t after turn (steps 0) in
      elim moved.turns [
        | inr (turn', full) ↦ (1, omega arith, turn'.now)
        | inl (turn', less) ↦
            let (m, le, now) =
              runs_eventually n (λ i. f (suc i)) c [] t after (λ i. steps (suc i)) turn'
                (omega (arith, less, enough)) in
            (suc m, omega (arith, le), now)
      ]
  runs_eventually (suc n) f c (p ∷ before) t after steps turn enough =
      let moved = Step-Moved show_clock (f 0) (f 1) c p (before ++ (t ∷ after)) turn (steps 0) in
      let same = quanta_of-kept (f 0) (f 1) before moved.quanta in
      elim moved.turns [
        | inr (turn', full) ↦
            let (m, le, now) =
              runs_eventually n (λ i. f (suc i)) p before t (after ++ (c ∷ [])) (λ i. steps (suc i))
                (subst (Turn (f 1) p) (append_assoc before (t ∷ after) (c ∷ [])) turn')
                (omega (arith, full, same, enough, turn.budget)) in
            (suc m, omega (arith, le), now)
        | inl (turn', less) ↦
            let (m, le, now) =
              runs_eventually n (λ i. f (suc i)) c (p ∷ before) t after (λ i. steps (suc i)) turn'
                (omega (arith, less, same, enough, moved.quanta p)) in
            (suc m, omega (arith, le), now)
      ]

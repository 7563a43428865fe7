-- ===== src/Libc/Length.antt =====
-- The length of a C string, libc.c.
use native.Mathlib.Decide.{dec_lt}
use zeos_soa.Base.{ℕ, zero, suc, ◌+◌, ◌≤◌, ◌<◌, ◌≡◌, ◌≢◌, sym, subst, some, arith}
use zeos_soa.Utils.{Bytes}
use zeos_soa.Libc.{strlen_loop, strlen}

strlen_loop_lem :
    (fuel : ℕ) (m : Bytes) (a n i : ℕ)
    → ((j : ℕ) → j < n → m (a + j) ≢ 0)
    → m (a + n) ≡ 0
    → i ≤ n
    → n < i + fuel
    → strlen_loop fuel m a i ≡ some n
unfolding strlen_loop
strlen_loop_lem zero m a n i text end lo hi = absurd (omega (arith, lo, hi))
strlen_loop_lem (suc fuel) m a n i text end lo hi = elim (dec_lt i n) [
  | yes inside ↦ ground (
    arith,
    text i inside,
    strlen_loop_lem fuel m a n (i + 1) text end (omega arith) (omega arith),
  )
  | no last ↦
      let e : i ≡ n = omega (arith, last) in
      let z : m (a + i) ≡ 0 = subst (λ j. m (a + j) ≡ 0) (sym e) end in ground (arith, z, e)
]

-- `strlen` of a string of `n` bytes and a NUL behind them returns `n`, with more than `n` rounds.
pub strlen_lem :
    (fuel : ℕ) (m : Bytes) (a n : ℕ)
    → ((j : ℕ) → j < n → m (a + j) ≢ 0)
    → m (a + n) ≡ 0
    → n < fuel
    → strlen fuel m a ≡ some n
unfolding strlen
strlen_lem fuel m a n text end enough =
    strlen_loop_lem fuel m a n 0 text end (omega arith) (omega arith)

-- ===== src/Libc.antt =====
-- libc.c: `itoa`, `strlen` and `perror` of the user programs.
pub mod Length
pub mod Decimal
pub mod Numeral
use zeos_soa.Base.{
  ℕ, zero, suc, ◌+◌, ◌-◌, ◌*◌, ◌/◌, ◌%◌, Bool, true, false, ◌==◌, ltb, Option, none, some, ◌>>=◌,
  is_neg, not, ◌&&◌, if◌then◌else◌, update,
}
use zeos_soa.Utils.{Bytes}

-- `while (a[i]!=0) i++;`, on fuel.
unfoldable pub strlen_loop : ℕ → Bytes → (a i : ℕ) → Option ℕ
strlen_loop zero m a i = none
strlen_loop (suc n) m a i = elim (m (a + i) == 0) [
  | true ↦ some i
  | false ↦ strlen_loop n m a (i + 1)
]

-- `none` where there is no NUL in the bytes that the fuel reaches.
unfoldable pub strlen : (fuel : ℕ) → Bytes → (a : ℕ) → Option ℕ
strlen fuel m a = strlen_loop fuel m a 0

-- The loop of `itoa` that writes the digits, the lowest first, and returns their number.
unfoldable pub digits_loop : ℕ → (a b i : ℕ) → Bytes → ℕ × Bytes
digits_loop zero a b i m = (i, m)
digits_loop (suc n) a b i m = elim (not (is_neg a) && ltb 0 a) [
  | true ↦ digits_loop n (a / 10) b (i + 1) (update m (b + i) (a % 10 + b'0'))
  | false ↦ (i, m)
]

-- The loop that turns them round.
unfoldable pub reverse_loop : ℕ → (b i i1 : ℕ) → Bytes → Bytes
reverse_loop zero b i i1 m = m
reverse_loop (suc n) b i i1 m =
    let c = m (b + i1) in
    let m' = update m (b + i1) (m (b + (i - i1 - 1))) in
    reverse_loop n b i (i1 + 1) (update m' (b + (i - i1 - 1)) c)

-- A positive `int` has ten digits at most.
unfoldable pub itoa : (a b : ℕ) → Bytes → Bytes
itoa a b m =
    let (i, m') = digits_loop 10 a b 0 m in
    if a == 0
    then update (update m b b'0') (b + 1) 0
    else update (reverse_loop (i / 2) b i 0 m') (b + i) 0

-- The arguments of a call of `write` to file 1: the address and the size of what goes to the screen.
pub record WriteCall : Type 0 where
  pub buffer : ℕ
  pub size : ℕ

-- `perror`, up to its call of `write`; `buffer` is the address of its 256 bytes. Eleven rounds are
-- enough for the NUL behind ten digits.
unfoldable pub perror : (errno buffer : ℕ) → Bytes → Option (WriteCall × Bytes)
perror errno buffer m = do
  size ← strlen 11 (itoa errno buffer m) buffer
  some (record { buffer = buffer; size = size }, itoa errno buffer m)

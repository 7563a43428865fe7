-- ===== src/Libc/Numeral.antt =====
-- `itoa`, `strlen` and `perror` together, libc.c.
use native.Mathlib.Decide.{dec_lt}
use native.Mathlib.Nat.{pow-zero}
use zeos_soa.Base.{
  ℕ, ◌+◌, ◌-◌, ◌*◌, ◌/◌, ◌^◌, ◌≤◌, ◌<◌, ◌≡◌, ◌⊎◌, inl, inr, refl, sym, ap, subst, ◌∙◌, ◌==◌,
  Bool-cases, some, update, arith,
}
use zeos_soa.Utils.{Bytes}
use zeos_soa.Libc.{digits_loop, reverse_loop, itoa, strlen, perror}
use zeos_soa.Libc.Length.{strlen_lem}
use zeos_soa.Libc.Decimal.{
  digit, Written, digits_loop-Written, reverse_loop_lem, reverse_loop_outside,
}

-- The bytes from `b` on are the decimal numeral of `a`: `n` digits, the highest first and not 0
-- unless it is the only one, and a NUL.
pub record IsNumeral (a b n : ℕ) (m : Bytes) : Type 0 where
  pub some_digits : (1 ≤ n) × (n ≤ 10)
  pub fits : a < 10 ^ n
  pub short : (n ≡ 1) ⊎ (10 ^ n ≤ 10 * a)
  pub digits : (j : ℕ) → j < n → m (b + j) ≡ digit a (n - 1 - j)
  pub end : m (b + n) ≡ 0

-- What `itoa` leaves behind, with the bytes that are not its own as they were.
abbrev pub Prints : (a b n : ℕ) → Bytes → Bytes → Type 0
Prints a b n m m' = IsNumeral a b n m' × ((c : ℕ) → (c < b) ⊎ (b + n < c) → m' c ≡ m c)

zero-Prints : (b : ℕ) (m : Bytes) → Prints 0 b 1 m (update (update m b b'0') (b + 1) 0)
zero-Prints b m = (
  record {
    some_digits = omega arith;
    fits = omega arith;
    short = inl refl;
    digits = λ j h. let e : j ≡ 0 = omega arith in rw e (ground arith);
    end = ground arith;
  },
  λ c o. ground (arith, o),
)

module _ (a b n : ℕ) (m : Bytes) (pos : 0 < a) (le : n ≤ 10) (m' : Bytes)
    (w : Written a b 0 n m m') where
  abbrev after : Bytes
  after = update (reverse_loop (n / 2) b n 0 m') (b + n) 0

  positive-digits : (j : ℕ) → j < n → after (b + j) ≡ digit a (n - 1 - j)
  positive-digits j h =
      let turn = reverse_loop_lem (n / 2) b n 0 m' j (omega arith) h in
      let at : m' (b + (0 + (n - 1 - j))) ≡ digit a (n - 1 - j) =
        w.digits (n - 1 - j) (omega (arith, h)) in
      let same : m' (b + (n - 1 - j)) ≡ digit a (n - 1 - j) =
        ap (λ k. m' (b + k)) (omega arith) ∙ at in
      ground (arith, turn, same)

  at_least_one : 1 ≤ n
  at_least_one = elim (dec_lt 0 n) [
    | yes some_digit ↦ some_digit
    | no none ↦
        let e : n ≡ 0 = omega arith in
        let one : 10 ^ n ≡ 1 = ap (λ k. 10 ^ k) e ∙ pow-zero 10 in
        absurd (omega (arith, w.low, one))
  ]

  positive-Prints : Prints a b n m after
  positive-Prints = (
    record {
      some_digits = (at_least_one, le);
      fits = w.low;
      short = inr (w.high pos);
      digits = positive-digits;
      end = ground arith;
    },
    λ c o. ground (
      arith,
      o,
      reverse_loop_outside (n / 2) b n 0 m' c (omega arith) (omega (arith, o)),
      w.rest c (omega (arith, o)),
    ),
  )

pub Prints-strlen : (a b n : ℕ) (m m' : Bytes) → Prints a b n m m' → strlen 11 m' b ≡ some n
Prints-strlen a b n m m' p =
    let (numeral, _) = p in
    strlen_lem 11 m' b n (λ j h e. omega (arith, numeral.digits j h, e)) numeral.end
      (omega (arith, numeral.some_digits))

pub itoa-Prints : (a b : ℕ) (m : Bytes) → a < 2 ^ 31 → (n : ℕ) × Prints a b n m (itoa a b m)
unfolding itoa
itoa-Prints a b m small = elim (Bool-cases (a == 0)) [
  | inl zero_now ↦
      let e : a ≡ 0 = ground (arith, zero_now) in
      let done : itoa a b m ≡ update (update m b b'0') (b + 1) 0 = rw (zero_now, itoa) refl in
      (
        1,
        subst (λ q. Prints a b 1 m q) (sym done)
            (subst (λ z. Prints z b 1 m (update (update m b b'0') (b + 1) 0)) (sym e)
              (zero-Prints b m)),
      )
  | inr more ↦
      let pos : 0 < a = ground (arith, more) in
      let (n, le, count, w) = digits_loop-Written 10 a b 0 m (omega arith) small in
      let m' = (digits_loop 10 a b 0 m).1 in
      let count' : (digits_loop 10 a b 0 m).0 ≡ n = omega (arith, count) in
      let done : itoa a b m ≡ (
          let i = (digits_loop 10 a b 0 m).0 in update (reverse_loop (i / 2) b i 0 m') (b + i) 0) =
        rw (more, itoa) refl in
      (
        n,
        subst (λ q. Prints a b n m q)
            (sym (done ∙ ap (λ i. update (reverse_loop (i / 2) b i 0 m') (b + i) 0) count'))
            (positive-Prints a b n m pos le m' w),
      )
]

-- `itoa` of a number that is not negative writes its decimal numeral, without leading zeros and
-- with a NUL behind it, and no other byte; and `perror` calls `write` for exactly the digits of
-- `errno`.
pub perror-Prints :
    (errno buffer : ℕ) (m : Bytes)
    → errno < 2 ^ 31
    → (n : ℕ) × (m' : Bytes) × Prints errno buffer n m m'
      × (perror errno buffer m ≡ some (record { buffer = buffer; size = n }, m'))
unfolding perror
perror-Prints errno buffer m small =
    let (n, p) = itoa-Prints errno buffer m small in
    (n, itoa errno buffer m, p, rw (Prints-strlen errno buffer n m (itoa errno buffer m) p) refl)

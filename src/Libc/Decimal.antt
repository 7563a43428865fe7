-- ===== src/Libc/Decimal.antt =====
-- The decimal numeral that `itoa` writes, libc.c.
use native.Mathlib.Decide.{dec_lt}
use native.Mathlib.Nat.{pow-succ', pow-zero, div-one, div-div-eq-div-mul}
use zeos_soa.Base.{
  ℕ, zero, suc, ◌+◌, ◌-◌, ◌*◌, ◌/◌, ◌%◌, ◌^◌, ◌≤◌, ◌<◌, ◌≡◌, ◌⊎◌, inl, refl, sym, ap, ◌∙◌, true,
  false, ltb, leb, ◌&&◌, not, is_neg, if◌then◌else◌, update, arith,
}
use zeos_soa.Utils.{Bytes}
use zeos_soa.Libc.{digits_loop, reverse_loop}

-- The character of the digit of `a` that counts `10 ^ j`.
abbrev pub digit : (a j : ℕ) → ℕ
digit a j = a / 10 ^ j % 10 + b'0'

digit-suc : (a j : ℕ) → digit (a / 10) j ≡ digit a (suc j)
digit-suc a j =
    ap (λ q. q % 10 + b'0')
      (div-div-eq-div-mul a 10 (10 ^ j) ∙ ap (λ p. a / p) (sym (pow-succ' 10 j)))

digit-zero : (a : ℕ) → digit a 0 ≡ a % 10 + b'0'
digit-zero a = ap (λ p. a / p % 10 + b'0') (pow-zero 10) ∙ ap (λ q. q % 10 + b'0') (div-one a)

-- `m'` is `m` with the `n` digits of `a` from `b + i` on, the lowest first, and none of them too
-- many.
pub record Written (a b i n : ℕ) (m m' : Bytes) : Type 0 where
  pub low : a < 10 ^ n
  pub high : 0 < a → 10 ^ n ≤ 10 * a
  pub none : a ≡ 0 → n ≡ 0
  pub digits : (j : ℕ) → j < n → m' (b + (i + j)) ≡ digit a j
  pub rest : (c : ℕ) → (c < b + i) ⊎ (b + (i + n) ≤ c) → m' c ≡ m c

module _ (a b i n : ℕ) (m m' : Bytes) (pos : 0 < a)
    (w : Written (a / 10) b (i + 1) n (update m (b + i) (a % 10 + b'0')) m') where
  step_high : 10 ^ suc n ≤ 10 * a
  step_high = elim (dec_lt 0 (a / 10)) [
    | yes more ↦ omega (arith, pow-succ' 10 n, w.high more)
    | no last ↦
        let z : n ≡ 0 = w.none (omega arith) in
        let one : 10 ^ n ≡ 1 = ap (λ k. 10 ^ k) z ∙ pow-zero 10 in
        omega (arith, pow-succ' 10 n, one)
  ]

  step_digits : (j : ℕ) → j < suc n → m' (b + (i + j)) ≡ digit a j
  step_digits zero h =
      ap (λ (k : ℕ). m' k) (omega arith)
      ∙ w.rest (b + i) (inl (omega arith))
      ∙ ground arith
      ∙ sym (digit-zero a)
  step_digits (suc j) h =
      ap (λ (k : ℕ). m' k) (omega arith) ∙ w.digits j (omega (arith, h)) ∙ digit-suc a j

  step-Written : Written a b i (suc n) m m'
  step-Written = record {
    low = omega (arith, pow-succ' 10 n, w.low);
    high = λ _. step_high;
    none = λ z. absurd (omega arith);
    digits = step_digits;
    rest = λ c o. w.rest c (ground (arith, o)) ∙ ground (arith, o);
  }

pub digits_loop-Written :
    (fuel a b i : ℕ) (m : Bytes)
    → a < 10 ^ fuel
    → a < 2 ^ 31
    → (n : ℕ) × (n ≤ fuel)
      × ((digits_loop fuel a b i m).0 ≡ i + n)
      × Written a b i n m (digits_loop fuel a b i m).1
unfolding digits_loop
digits_loop-Written zero a b i m h small = (
  0,
  omega arith,
  omega arith,
  record {
    low = h;
    high = λ p. absurd (omega (arith, pow-zero 10, h));
    none = λ _. refl;
    digits = λ j l. absurd (omega arith);
    rest = λ c o. refl;
  },
)
digits_loop-Written (suc fuel) a b i m h small = elim (dec_lt 0 a) [
  | yes pos ↦
      let more : (not (is_neg a) && ltb 0 a) ≡ true = ground arith in
      let (n, le, count, w) =
        digits_loop-Written fuel (a / 10) b (i + 1) (update m (b + i) (a % 10 + b'0'))
          (omega (arith, pow-succ' 10 fuel)) (omega arith) in
      rw (more, digits_loop)
        (suc n, omega (arith, le), omega (arith, count), step-Written a b i n m _ pos w)
  | no zero_now ↦
      let less : (not (is_neg a) && ltb 0 a) ≡ false = ground arith in
      rw (less, digits_loop)
        (
          0,
          omega arith,
          omega arith,
          record {
            low = omega (arith, pow-zero 10);
            high = λ p. absurd (omega arith);
            none = λ _. refl;
            digits = λ j l. absurd (omega arith);
            rest = λ c o. refl;
          },
        )
]

-- One exchange of the loop that turns the digits round.
abbrev exchanged : (b i i1 : ℕ) → Bytes → Bytes
exchanged b i i1 m =
    update (update m (b + i1) (m (b + (i - i1 - 1)))) (b + (i - i1 - 1)) (m (b + i1))

-- What the loop makes of the byte at the index `j`, from the index `i1` on.
abbrev pub turned : (b i i1 : ℕ) → Bytes → ℕ → ℕ
turned b i i1 m j = if leb i1 j && ltb j (i - i1) then m (b + (i - 1 - j)) else m (b + j)

turned_step :
    (b i i1 : ℕ) (m : Bytes) (j : ℕ)
    → i1 + 1 ≤ i / 2
    → j < i
    → turned b i (i1 + 1) (exchanged b i i1 m) j ≡ turned b i i1 m j
turned_step b i i1 m j h l = elim (dec_lt j i1) [
  | yes before ↦ ground arith
  | no from ↦ elim (dec_lt i1 j) [
    | no same ↦ let e : j ≡ i1 = omega arith in rw e (ground arith)
    | yes after ↦ elim (dec_lt j (i - i1 - 1)) [
      | yes inside ↦ ground arith
      | no beyond ↦ elim (dec_lt (i - i1 - 1) j) [
        | yes outside ↦ ground arith
        | no last ↦
            let e : j ≡ i - i1 - 1 = omega arith in
            let back : i - 1 - (i - i1 - 1) ≡ i1 = omega arith in
            rw e (ground (arith, ap (λ k. m (b + k)) back))
      ]
    ]
  ]
]

pub reverse_loop_lem :
    (n b i i1 : ℕ) (m : Bytes) (j : ℕ)
    → i1 + n ≡ i / 2
    → j < i
    → reverse_loop n b i i1 m (b + j) ≡ turned b i i1 m j
unfolding reverse_loop
reverse_loop_lem zero b i i1 m j h l = elim (dec_lt j i1) [
  | yes before ↦ ground arith
  | no from ↦ elim (dec_lt j (i - i1)) [
    | no beyond ↦ ground arith
    | yes middle ↦
        let back : i - 1 - j ≡ j = omega arith in ground (arith, ap (λ k. m (b + k)) back)
  ]
]
reverse_loop_lem (suc n) b i i1 m j h l =
    reverse_loop_lem n b i (i1 + 1) (exchanged b i i1 m) j (omega (arith, h)) l
    ∙ turned_step b i i1 m j (omega (arith, h)) l

pub reverse_loop_outside :
    (n b i i1 : ℕ) (m : Bytes) (c : ℕ)
    → i1 + n ≡ i / 2
    → (c < b) ⊎ (b + i ≤ c)
    → reverse_loop n b i i1 m c ≡ m c
unfolding reverse_loop
reverse_loop_outside zero b i i1 m c h o = refl
reverse_loop_outside (suc n) b i i1 m c h o =
    reverse_loop_outside n b i (i1 + 1) (exchanged b i i1 m) c (omega (arith, h)) o
    ∙ ground (arith, o, h)

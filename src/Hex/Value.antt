-- ===== src/Hex/Value.antt =====
-- The number that `put_hex` prints.
use native.Mathlib.Nat.{pow-succ'}
use zeos_soa.Base.{
  ℕ, zero, suc, ◌+◌, ◌-◌, ◌*◌, ◌/◌, ◌%◌, ◌^◌, ◌<◌, ◌≡◌, refl, ap, ◌∙◌, List, [], ◌∷◌, ◌==◌, ltb,
  Bool-cases, inl, inr, if◌then◌else◌, arith,
}
use zeos_soa.Hex.{hex_char, hex_loop, put_hex}

-- The digit that a character stands for, and the number that a text stands for behind `v`.
abbrev pub digit_of : ℕ → ℕ
digit_of c = if ltb c b'A' then c - b'0' else c - b'A' + 10

abbrev pub value_from : (v : ℕ) → List ℕ → ℕ
value_from v [] = v
value_from v (c ∷ cs) = value_from (16 * v + digit_of c) cs

digit-hex_char : (d : ℕ) → d < 16 → digit_of (hex_char d) ≡ d
digit-hex_char d h = ground arith

hex_loop_lem :
    (n num bound : ℕ) (buffer : List ℕ)
    → num < bound
    → bound ≡ 16 ^ n
    → value_from 0 (hex_loop n num buffer) ≡ value_from num buffer
unfolding hex_loop
hex_loop_lem zero num bound buffer h e = ap (λ v. value_from v buffer) (omega (arith, e))
hex_loop_lem (suc n) num bound buffer h e = elim (Bool-cases (ltb 0 num)) [
  | inr none ↦
      let z : 0 ≡ num = ground (arith, none) in
      rw (none, hex_loop) (ap (λ v. value_from v buffer) z)
  | inl some ↦
      let digit = digit-hex_char (num % 16) (omega arith) in
      let back : 16 * (num / 16) + digit_of (hex_char (num % 16)) ≡ num = omega (arith, digit) in
      rw (some, hex_loop)
        (hex_loop_lem n (num / 16) (16 ^ n) (hex_char (num % 16) ∷ buffer) (shorter num n bound h e)
            refl
          ∙ ap (λ v. value_from v buffer) back)
]
  where
    shorter : (num n bound : ℕ) → num < bound → bound ≡ 16 ^ suc n → num / 16 < 16 ^ n
    shorter num n bound h e =
        let p : 16 ^ suc n ≡ 16 * 16 ^ n = pow-succ' 16 n in omega (arith, e, p)

-- What `put_hex` writes for a 32-bit number, read back as a hexadecimal numeral, is that number.
pub put_hex_lem : (num : ℕ) → num < 2 ^ 32 → value_from 0 (put_hex num) ≡ num
unfolding put_hex
put_hex_lem num h = elim (Bool-cases (num == 0)) [
  | inl none ↦ rw none (ground arith)
  | inr some ↦ rw some (hex_loop_lem 8 num (2 ^ 32) [] h refl)
]

-- ===== src/Hex.antt =====
-- user.c: `put_hex`, which the user program prints numbers with.
pub mod Value
use zeos_soa.Base.{
  ℕ, zero, suc, ◌+◌, ◌-◌, ◌/◌, ◌%◌, Bool, true, false, List, [], ◌∷◌, ◌==◌, ltb, if◌then◌else◌,
}

-- `hex_chars[d]`: the characters of each range follow one another.
abbrev pub hex_char : ℕ → ℕ
hex_char d = if ltb d 10 then b'0' + d else b'A' + (d - 10)

-- The loop that fills `buffer`, here with the last character first, as the second loop writes them.
unfoldable pub hex_loop : ℕ → (num : ℕ) → (buffer : List ℕ) → List ℕ
hex_loop zero num buffer = buffer
hex_loop (suc n) num buffer = elim (ltb 0 num) [
  | true ↦ hex_loop n (num / 16) (hex_char (num % 16) ∷ buffer)
  | false ↦ buffer
]

-- The bytes that go to the screen. A 32-bit number has eight digits at most.
unfoldable pub put_hex : (num : ℕ) → List ℕ
put_hex num = if num == 0 then b'0' ∷ [] else hex_loop 8 num []

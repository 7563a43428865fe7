-- ===== src/Keyboard/Queue.antt =====
-- The key ring of interrupt.c and sys.c as a queue of at most 256 keys.
use zeos_soa.Base.{
  ℕ, ◌+◌, ◌%◌, ◌≤◌, ◌<◌, ◌≡◌, ◌≢◌, true, false, none, refl, sym, ap, subst, add32, sub32, List, [],
  ◌∷◌, ◌++◌, length, arith, update, length-append,
}
use zeos_soa.Errno.{efault, einval}
use zeos_soa.Utils.{Bytes, verify_write, access_ok}
use zeos_soa.Keyboard.{cbuffer_size, CBuffer, key_char, keyboard_routine, sys_get_key}

-- The keys lie in the ring one behind the other from place `r` on.
abbrev Slots : (ℕ → ℕ) → ℕ → List ℕ → Type 0
Slots buf r [] = Unit {0}
Slots buf r (x ∷ xs) = (buf r ≡ x) × Slots buf ((r + 1) % cbuffer_size) xs

-- The buffer holds the keys `q`, the oldest first.
pub record Holds (b : CBuffer) (q : List ℕ) : Type 0 where
  pub slots : Slots b.buffer b.rpointer q
  pub reader : b.rpointer < cbuffer_size
  pub writer : b.wpointer ≡ (b.rpointer + length q) % cbuffer_size
  pub written : b.bwritten ≡ length q
  pub fits : length q ≤ cbuffer_size

Slots-push :
    (buf : ℕ → ℕ) (r : ℕ) (xs : List ℕ) (w c : ℕ)
    → r < cbuffer_size
    → length xs < cbuffer_size
    → w ≡ (r + length xs) % cbuffer_size
    → Slots buf r xs
    → Slots (update buf w c) r (xs ++ (c ∷ []))
Slots-push buf r [] w c h l e s = (ground arith, tt)
Slots-push buf r (x ∷ xs) w c h l e s = (
  ground arith,
  Slots-push buf ((r + 1) % cbuffer_size) xs w c (omega arith) (omega arith) (omega arith) s.1,
)

keyboard_routine-eq :
    (beyond : ℕ → ℕ) (scan : ℕ) (b : CBuffer)
    → 128 ≤ scan
    → scan < 256
    → b.wpointer < cbuffer_size
    → keyboard_routine beyond scan b ≡ record {
      buffer = update b.buffer b.wpointer (key_char beyond scan);
      rpointer = b.rpointer;
      wpointer = add32 b.wpointer 1 % cbuffer_size;
      bwritten = add32 b.bwritten 1;
    }
unfolding keyboard_routine
keyboard_routine-eq beyond scan b lo hi w = ground arith

sys_get_key-eq :
    (p : ℕ) (m : Bytes) (b : CBuffer)
    → b.bwritten ≢ 0
    → p ≢ 0
    → access_ok verify_write p 1 none ≡ true
    → sys_get_key p m b ≡ (
      1,
      update m p (b.buffer b.rpointer),
      record b { rpointer = add32 b.rpointer 1 % cbuffer_size; bwritten = sub32 b.bwritten 1 },
    )
unfolding sys_get_key
sys_get_key-eq p m b some_key there ok = ground arith

-- A key that is released while the ring is not full goes behind the keys that wait there.
pub keyboard_routine-Holds :
    (beyond : ℕ → ℕ) (scan : ℕ) (b : CBuffer) (q : List ℕ)
    → Holds b q
    → 128 ≤ scan
    → scan < 256
    → length q < cbuffer_size
    → Holds (keyboard_routine beyond scan b) (q ++ (key_char beyond scan ∷ []))
unfolding keyboard_routine
keyboard_routine-Holds beyond scan b q h lo hi l =
    let w : b.wpointer < cbuffer_size = omega (arith, h.writer) in
    let eq = keyboard_routine-eq beyond scan b lo hi w in
    let len = length-append q (key_char beyond scan ∷ []) in
    subst (λ z. Holds z (q ++ (key_char beyond scan ∷ []))) (sym eq)
      (record {
        slots =
            Slots-push b.buffer b.rpointer q b.wpointer (key_char beyond scan) h.reader l h.writer
              h.slots;
        reader = h.reader;
        writer = omega (arith, len, h.writer);
        written = omega (arith, len, h.written);
        fits = omega (arith, len);
      })

-- A scan code below 128, which is a key going down, changes nothing.
pub keyboard_routine-down :
    (beyond : ℕ → ℕ) (scan : ℕ) (b : CBuffer) → scan < 128 → keyboard_routine beyond scan b ≡ b
unfolding keyboard_routine
keyboard_routine-down beyond scan b h = ground arith

-- `keyboard_routine` does not see that the ring is full: with 256 keys waiting, one more
-- overwrites the oldest and the count goes to 257.
pub keyboard_routine-overruns :
    (beyond : ℕ → ℕ) (scan : ℕ) (b : CBuffer) (q : List ℕ)
    → Holds b q
    → 128 ≤ scan
    → scan < 256
    → length q ≡ cbuffer_size
    → ((keyboard_routine beyond scan b).buffer b.rpointer ≡ key_char beyond scan)
      × ((keyboard_routine beyond scan b).bwritten ≡ 257)
keyboard_routine-overruns beyond scan b q h lo hi l =
    let w : b.wpointer < cbuffer_size = omega (arith, h.writer) in
    let there : b.wpointer ≡ b.rpointer = omega (arith, h.writer, h.reader) in
    rw (keyboard_routine-eq beyond scan b lo hi w) (ground arith, omega (arith, h.written))

-- `sys_getKey` with a key waiting and a pointer it may write to: the oldest key goes to the user's
-- memory and leaves the ring, and the result is 1.
pub sys_get_key-Holds :
    (p : ℕ) (m : Bytes) (b : CBuffer) (x : ℕ) (q : List ℕ)
    → Holds b (x ∷ q)
    → p ≢ 0
    → access_ok verify_write p 1 none ≡ true
    → ((sys_get_key p m b).0 ≡ 1)
      × ((sys_get_key p m b).1 ≡ update m p x)
      × Holds (sys_get_key p m b).2 q
sys_get_key-Holds p m b x q h there ok =
    let some_key : b.bwritten ≢ 0 = omega (arith, h.written) in
    rw (sys_get_key-eq p m b some_key there ok) (
      refl,
      ap (update m p) h.slots.0,
      record {
        slots = subst (λ r. Slots b.buffer r q) (omega (arith, h.reader)) h.slots.1;
        reader = omega arith;
        writer = omega (arith, h.writer);
        written = omega (arith, h.written, h.fits);
        fits = omega (arith, h.fits);
      },
    )

-- `sys_getKey` that hands out no key changes nothing: it returns 0 on an empty ring, EINVAL for
-- a null pointer, and EFAULT for one that `access_ok` rejects.
pub sys_get_key-refuses :
    (p : ℕ) (m : Bytes) (b : CBuffer) (q : List ℕ)
    → Holds b q
    → (q ≡ [] → sys_get_key p m b ≡ (0, m, b))
      × (0 < length q → p ≡ 0 → sys_get_key p m b ≡ (einval, m, b))
      × (0 < length q
          → p ≢ 0
          → access_ok verify_write p 1 none ≡ false
          → sys_get_key p m b ≡ (efault, m, b))
unfolding sys_get_key
sys_get_key-refuses p m b q h = (
  λ e. ground (arith, h.written, ap length e),
  λ l z. ground (arith, h.written),
  λ l z r. ground (arith, h.written),
)

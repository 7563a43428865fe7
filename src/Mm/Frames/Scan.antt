-- ===== src/Mm/Frames/Scan.antt =====
-- The scan of `alloc_frame`, round by round.
use zeos_soa.Base.{
  ℕ, zero, suc, ◌+◌, ◌*◌, ◌<◌, ◌≡◌, ◌≢◌, ◌⊎◌, inl, inr, refl, arith, ◌==◌, neg, update, Bool-cases,
}
use zeos_soa.Mm.Frames.{PhysMem, free_mark, used_mark, alloc_loop}

-- The scan finds the first free frame `i + 2 * k` with `k` below `n`.
pub record Found (m : PhysMem) (n i k : ℕ) : Type 0 where
  pub in_range : k < n
  pub was_free : m (i + 2 * k) ≡ free_mark
  pub first : (j : ℕ) → j < k → m (i + 2 * j) ≢ free_mark
  pub result : alloc_loop n i m ≡ (i + 2 * k, update m (i + 2 * k) used_mark)

-- None of the `n` frames that the scan visits is free.
pub record Full (m : PhysMem) (n i : ℕ) : Type 0 where
  pub none_free : (j : ℕ) → j < n → m (i + 2 * j) ≢ free_mark
  pub result : alloc_loop n i m ≡ (neg 1, m)

-- Frames that are not free from `i + 2` on, with `i` itself, are so from `i` on.
shift_used :
    (m : PhysMem) (i k : ℕ)
    → m i ≢ free_mark
    → ((j : ℕ) → j < k → m (i + 2 + 2 * j) ≢ free_mark)
    → (j : ℕ) → j < suc k
    → m (i + 2 * j) ≢ free_mark
shift_used m i k a h zero l e = let z : i + 2 * 0 ≡ i = omega arith in a (rw (← z) e)
shift_used m i k a h (suc j) l e =
    let z : i + 2 * suc j ≡ i + 2 + 2 * j = omega arith in h j (omega arith) (rw (← z) e)

pub alloc_loop-cases : (n i : ℕ) (m : PhysMem) → ((k : ℕ) × Found m n i k) ⊎ Full m n i
unfolding alloc_loop
alloc_loop-cases zero i m = inr (record { none_free = λ j h. absurd (omega arith); result = refl })
alloc_loop-cases (suc n) i m = elim (Bool-cases (m i == free_mark)) [
  | inl hit ↦
      let z : i + 2 * 0 ≡ i = omega arith in
      inl (
        0,
        record {
          in_range = omega arith;
          was_free = rw z (ground arith);
          first = λ j h. absurd (omega arith);
          result = rw (z, hit, alloc_loop);
        },
      )
  | inr miss ↦
      let used : m i ≢ free_mark = ground arith in
      elim (alloc_loop-cases n (i + 2) m) [
        | inl (k, found) ↦
            let z : i + 2 * suc k ≡ i + 2 + 2 * k = omega arith in
            inl (
              suc k,
              record {
                in_range = omega (arith, found.in_range);
                was_free = rw z found.was_free;
                first = shift_used m i k used found.first;
                result = rw (z, miss, alloc_loop) found.result;
              },
            )
        | inr full ↦ inr (record {
          none_free = shift_used m i n used full.none_free;
          result = rw (miss, alloc_loop) full.result;
        })
      ]
]

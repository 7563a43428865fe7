-- ===== src/Utils/Copy.antt =====
-- The copy loops of utils.c.
use zeos_soa.Base.{
  ℕ, zero, suc, ◌+◌, ◌-◌, ◌≤◌, ◌<◌, ◌≡◌, ◌⊎◌, inl, inr, ◌∙◌, ◌%◌, ◌&&◌, arith, leb, ltb, ltb→lt,
  if◌then◌else◌, update, Bool-cases,
}
use zeos_soa.Utils.{
  Bytes, copy_word, copy_bytes_loop, copy_words_loop, copy_data, memset_loop, memset,
}

-- `m'` is `m` with the block at `q` replaced by the block at `p`.
abbrev pub Copied : Bytes → Bytes → (p q size : ℕ) → Type 0
Copied m m' p q size =
    (a : ℕ) → m' a ≡ (if leb q a && ltb a (q + size) then m (p + (a - q)) else m a)

-- The blocks do not overlap.
abbrev pub Apart : (p q size : ℕ) → Type 0
Apart p q size = (p + size ≤ q) ⊎ (q + size ≤ p)

copy_byte_step :
    (m : Bytes) (p q size a : ℕ)
    → 0 < size
    → Apart p q size
    → (if leb (q + 1) a && ltb a (q + 1 + (size - 1))
        then update m q (m p) (p + 1 + (a - (q + 1)))
        else update m q (m p) a)
      ≡ (if leb q a && ltb a (q + size) then m (p + (a - q)) else m a)
copy_byte_step m p q size a l d = ground arith

copy_bytes_loop-Copied :
    (n : ℕ) (m : Bytes) (p q size : ℕ)
    → size ≤ n
    → Apart p q size
    → Copied m (copy_bytes_loop n m p q size) p q size
unfolding copy_bytes_loop
copy_bytes_loop-Copied zero m p q size h d a = ground arith
copy_bytes_loop-Copied (suc n) m p q size h d a = elim (Bool-cases (ltb 0 size)) [
  | inl more ↦
      let l : 0 < size = ltb→lt 0 size more in
      rw more (
        copy_bytes_loop-Copied n (update m q (m p)) (p + 1) (q + 1) (size - 1) (omega arith)
          (omega arith) a
        ∙ copy_byte_step m p q size a l d)
  | inr less ↦ rw less (ground arith)
]

copy_word_step :
    (m : Bytes) (p q size a : ℕ)
    → 4 < size
    → Apart p q size
    → (if leb (q + 4) a && ltb a (q + 4 + (size - 4))
        then copy_word m p q (p + 4 + (a - (q + 4)))
        else copy_word m p q a)
      ≡ (if leb q a && ltb a (q + size) then m (p + (a - q)) else m a)
unfolding copy_word
copy_word_step m p q size a l d = ground arith

copy_words_loop-Copied :
    (n : ℕ) (m : Bytes) (p q size : ℕ)
    → size ≤ n
    → Apart p q size
    → Copied m (copy_words_loop n m p q size) p q size
unfolding copy_words_loop
copy_words_loop-Copied zero m p q size h d a =
    copy_bytes_loop-Copied size m p q size (omega arith) d a
copy_words_loop-Copied (suc n) m p q size h d a = elim (Bool-cases (ltb 4 size)) [
  | inl more ↦
      let l : 4 < size = ltb→lt 4 size more in
      rw more (
        copy_words_loop-Copied n (copy_word m p q) (p + 4) (q + 4) (size - 4) (omega arith)
          (omega arith) a
        ∙ copy_word_step m p q size a l d)
  | inr less ↦ rw less (copy_bytes_loop-Copied size m p q size (omega arith) d a)
]

-- `copy_data` copies a block of any size to a block that does not overlap it, and writes nowhere
-- else: its loops end.
pub copy_data-Copied :
    (m : Bytes) (start dest size : ℕ)
    → Apart start dest size
    → Copied m (copy_data m start dest size) start dest size
unfolding copy_data
copy_data-Copied m start dest size d = copy_words_loop-Copied size m start dest size (omega arith) d

memset_loop_lem :
    (n : ℕ) (m : Bytes) (s c i a : ℕ)
    → memset_loop n m s c i a ≡ (if leb (s + i) a && ltb a (s + i + n) then c % 256 else m a)
unfolding memset_loop
memset_loop_lem zero m s c i a = ground arith
memset_loop_lem (suc n) m s c i a =
    ground (arith, memset_loop_lem n (update m (s + i) (c % 256)) s c (i + 1) a)

-- `memset` sets the bytes of the block, and no other.
pub memset_lem :
    (m : Bytes) (s c size a : ℕ)
    → memset m s c size a ≡ (if leb s a && ltb a (s + size) then c % 256 else m a)
unfolding memset
memset_lem m s c size a = ground (arith, memset_loop_lem size m s c 0 a)

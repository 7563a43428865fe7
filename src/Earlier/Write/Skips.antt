-- ===== src/Earlier/Write/Skips.antt =====
-- Which bytes `sys_write` of the earlier kernel shows.
use zeos_soa.Base.{
  ℕ, zero, suc, ◌+◌, ◌-◌, ◌*◌, ◌/◌, ◌%◌, ◌^◌, ◌≤◌, ◌<◌, ◌≡◌, ◌≢◌, ◌⊎◌, inl, inr, refl, ap, subst,
  ◌∙◌, true, false, List, [], ◌∷◌, ◌++◌, leb, ltb, ◌&&◌, ltb→lt, Bool-cases, is_neg, if◌then◌else◌,
  arith,
}
use zeos_soa.Utils.{Bytes, copy_data, verify_write}
use zeos_soa.Utils.Copy.{copy_data-Copied}
use zeos_soa.Io.{Console}
use zeos_soa.Sys.Write.{bytes_at, bytes_at-same, bytes_at-append}
use zeos_soa.Earlier.Mm.{access_ok}
use zeos_soa.Earlier.Exit.{check_fd}
use zeos_soa.Earlier.Devices.{printc, sys_write_console}
use zeos_soa.Earlier.Write.{buffer_size, write_block, write_loop, sys_write}

-- The addresses off the kernel's buffer.
abbrev OffBuffer : (buffer_k a : ℕ) → Type 0
OffBuffer buffer_k a = (a < buffer_k) ⊎ (buffer_k + buffer_size ≤ a)

abbrev Agree : (buffer_k : ℕ) (m m' : Bytes) → Type 0
Agree buffer_k m m' = (a : ℕ) → OffBuffer buffer_k a → m' a ≡ m a

-- Byte `i` of the output: the source moves on twice after each block.
abbrev pub shown : Bytes → (buffer : ℕ) → ℕ → ℕ
shown m buffer i = m (buffer + 512 * (i / 256) + i % 256)

sys_write_console-append :
    (xs ys : List ℕ) (s : Console)
    → sys_write_console (xs ++ ys) s ≡ sys_write_console ys (sys_write_console xs s)
unfolding sys_write_console
sys_write_console-append [] ys s = refl
sys_write_console-append (x ∷ xs) ys s = sys_write_console-append xs ys (printc s x)

-- The block that starts at byte `256 * j` of the output, of `n` bytes.
module _ (m : Bytes) (buffer buffer_k size j n : ℕ) (m' : Bytes) (s : Console)
    (agree : Agree buffer_k m m')
    (off : (buffer + 2 * size ≤ buffer_k) ⊎ (buffer_k + buffer_size ≤ buffer))
    (fits : 256 * j + n ≤ size) (le : n ≤ buffer_size) where
  copied :
      (a : ℕ)
      → copy_data m' (buffer + 512 * j) buffer_k n a ≡ (
          if leb buffer_k a && ltb a (buffer_k + n)
          then m' (buffer + 512 * j + (a - buffer_k))
          else m' a)
  copied = copy_data-Copied m' (buffer + 512 * j) buffer_k n (omega arith)

  block_bytes :
      bytes_at (copy_data m' (buffer + 512 * j) buffer_k n) buffer_k n
      ≡ bytes_at (shown m buffer) (256 * j) n
  block_bytes =
      bytes_at-same (copy_data m' (buffer + 512 * j) buffer_k n) (shown m buffer) buffer_k (256 * j)
        n
        (λ i l.
          let here : buffer + 512 * ((256 * j + i) / 256) + (256 * j + i) % 256
              ≡ buffer + 512 * j + i =
            omega arith in
          let kept : m' (buffer + 512 * j + i) ≡ m (buffer + 512 * j + i) =
            agree (buffer + 512 * j + i) (omega arith) in
          rw (here) (ground (arith, copied (buffer_k + i), kept)))

  block-Agree : Agree buffer_k m (copy_data m' (buffer + 512 * j) buffer_k n)
  block-Agree a o = ground (arith, copied a, agree a o)

-- A block and what follows it are one run of bytes.
two_blocks :
    (g : Bytes) (j bytes : ℕ) (block : List ℕ) (s : Console)
    → buffer_size < bytes
    → block ≡ bytes_at g (256 * j) buffer_size
    → sys_write_console
        (bytes_at g (256 * (j + 1)) (bytes - buffer_size))
        (sys_write_console block s)
      ≡ sys_write_console (bytes_at g (256 * j) bytes) s
two_blocks g j bytes block s l e =
    let next : 256 * j + buffer_size ≡ 256 * (j + 1) = omega arith in
    let whole : buffer_size + (bytes - buffer_size) ≡ bytes = omega arith in
    let parts = bytes_at-append g (256 * j) buffer_size (bytes - buffer_size) in
    let both =
      sys_write_console-append (bytes_at g (256 * j) buffer_size)
        (bytes_at g (256 * j + buffer_size) (bytes - buffer_size)) s in
    cc (e, next, whole, parts, both)

-- The loop from byte `256 * j` of the output on, with `bytes` left.
write_loop-shown :
    (fuel : ℕ) (m : Bytes) (buffer buffer_k size j bytes : ℕ) (m' : Bytes) (s : Console)
    → bytes ≤ fuel
    → Agree buffer_k m m'
    → (buffer + 2 * size ≤ buffer_k) ⊎ (buffer_k + buffer_size ≤ buffer)
    → 256 * j + bytes ≡ size
    → (write_loop fuel (buffer + 256 * j) buffer_k size bytes (m', s)).1
      ≡ sys_write_console (bytes_at (shown m buffer) (256 * j) bytes) s
unfolding write_loop write_block
write_loop-shown zero m buffer buffer_k size j bytes m' s h agree off fits =
    let at : buffer + 256 * j + (size - bytes) ≡ buffer + 512 * j = omega arith in
    rw (at) (
      ap (λ l. sys_write_console l s)
        (block_bytes m buffer buffer_k size j bytes m' s agree off (omega arith) (omega arith)))
write_loop-shown (suc fuel) m buffer buffer_k size j bytes m' s h agree off fits =
    let at : buffer + 256 * j + (size - bytes) ≡ buffer + 512 * j = omega arith in
    elim (Bool-cases (ltb buffer_size bytes)) [
      | inl more ↦
          let l : buffer_size < bytes = ltb→lt buffer_size bytes more in
          let next : buffer + 256 * j + buffer_size ≡ buffer + 256 * (j + 1) = omega arith in
          let m2 = copy_data m' (buffer + 512 * j) buffer_k buffer_size in
          let s2 = sys_write_console (bytes_at m2 buffer_k buffer_size) s in
          let here =
            block_bytes m buffer buffer_k size j buffer_size m' s agree off (omega arith)
              (omega arith) in
          let rest =
            write_loop-shown fuel m buffer buffer_k size (j + 1) (bytes - buffer_size) m2 s2
              (omega arith)
              (block-Agree m buffer buffer_k size j buffer_size m' s agree off (omega arith)
                (omega arith))
              off (omega arith) in
          rw (more, at, next)
            (rest ∙ two_blocks (shown m buffer) j bytes (bytes_at m2 buffer_k buffer_size) s l here)
      | inr less ↦
          rw (less, at)
            (ap (λ l. sys_write_console l s)
              (block_bytes m buffer buffer_k size j bytes m' s agree off (omega arith)
                (ground arith)))
    ]

-- `sys_write` of the earlier kernel, to the screen, of a block that `access_ok` accepts: it returns
-- the size, but byte `i` of what it shows is the byte of the user's memory at `512 * (i / 256) + i
-- % 256` from the start of the block, so from the second 256 bytes on every other block is left out
-- and what lies behind the user's block is shown. The kernel's buffer is apart from all that is
-- read.
pub sys_write-shown :
    (buffer size buffer_k : ℕ) (m : Bytes) (s : Console)
    → buffer ≢ 0
    → size < 2 ^ 31
    → access_ok verify_write buffer size ≡ true
    → (buffer + 2 * size ≤ buffer_k) ⊎ (buffer_k + buffer_size ≤ buffer)
    → ((sys_write 1 buffer size buffer_k (m, s)).0 ≡ size)
      × ((sys_write 1 buffer size buffer_k (m, s)).2
          ≡ sys_write_console (bytes_at (shown m buffer) 0 size) s)
unfolding sys_write check_fd
sys_write-shown buffer size buffer_k m s ne small ok off =
    let positive : is_neg size ≡ false = ground arith in
    let start : buffer + 256 * 0 ≡ buffer = omega arith in
    let run =
      write_loop-shown size m buffer buffer_k size 0 size m s (omega arith) (λ a o. refl) off
        (omega arith) in
    let run' : (write_loop size buffer buffer_k size size (m, s)).1
        ≡ sys_write_console (bytes_at (shown m buffer) 0 size) s =
      subst
        (λ b.
          (write_loop size b buffer_k size size (m, s)).1
          ≡ sys_write_console (bytes_at (shown m buffer) 0 size) s)
        start run in
    (ground (arith, ok, positive), ground (arith, ok, positive, run'))

-- ===== src/Sys/Write.antt =====
-- sys.c: `sys_write`; devices.c: `sys_write_console`; utils.c: `copy_from_user`.
use zeos_soa.Base.{
  ℕ, zero, suc, ◌+◌, ◌-◌, ◌≤◌, ◌<◌, ◌≡◌, ◌≢◌, ◌^◌, ◌⊎◌, inl, inr, refl, sym, subst, ap, ◌∙◌, true,
  false, none, List, [], ◌∷◌, ◌++◌, ◌==◌, ltb, ltb→lt, lt→ltb, Bool-cases, not, if◌then◌else◌,
  is_neg, arith,
}
use zeos_soa.Errno.{ebadf, efault, einval}
use zeos_soa.Utils.{Bytes, copy_data, verify_read, access_ok}
use zeos_soa.Utils.Copy.{copy_data-Copied}
use zeos_soa.Io.{Console, printc, write_console_loop}
use zeos_soa.Sys.{check_fd, escriptura}

abbrev pub tam_buffer : ℕ
tam_buffer = 512

-- The body of `copy_from_user` is that of `copy_data`.
abbrev pub copy_from_user : Bytes → (start dest size : ℕ) → Bytes
copy_from_user m start dest size = copy_data m start dest size

-- The bytes of a block, in order.
unfoldable pub bytes_at : Bytes → (a n : ℕ) → List ℕ
bytes_at m a zero = []
bytes_at m a (suc n) = m a ∷ bytes_at m (a + 1) n

-- What `sys_write_console` returns, and the console after it.
abbrev pub sys_write_console : Bytes → (buffer size : ℕ) → Console → ℕ × Console
sys_write_console m buffer size s = (size, write_console_loop (bytes_at m buffer size) s)

-- What follows the loop of `sys_write`: the bytes left, memory and the console.
unfoldable pub write_tail : (buffer local bytes_left : ℕ) → Bytes × Console → ℕ × Bytes × Console
write_tail buffer local bytes_left (m, s) =
    let m' = copy_from_user m buffer local bytes_left in
    let (ret, s') = sys_write_console m' local bytes_left s in
    if ltb 0 bytes_left then (bytes_left - ret, m', s') else (bytes_left, m, s)

-- The loop of `sys_write`, on fuel: each round takes 512 bytes off those left.
unfoldable pub write_loop :
    ℕ → (buffer local bytes_left : ℕ) → Bytes × Console → ℕ × Bytes × Console
write_loop zero buffer local bytes_left (m, s) = write_tail buffer local bytes_left (m, s)
write_loop (suc n) buffer local bytes_left (m, s) =
    let m' = copy_from_user m buffer local tam_buffer in
    let (ret, s') = sys_write_console m' local tam_buffer s in
    let rest = write_loop n (buffer + ret) local (bytes_left - ret) (m', s') in
    let last = write_tail buffer local bytes_left (m, s) in
    if ltb tam_buffer bytes_left then rest else last

-- `local` is the address of `localbuffer`.
unfoldable pub sys_write : (fd buffer nbytes local : ℕ) → Bytes → Console → ℕ × Bytes × Console
sys_write fd buffer nbytes local m s =
    let ret = check_fd fd escriptura in
    let (left, m', s') = write_loop nbytes buffer local nbytes (m, s) in
    if not (ret == 0)
    then (ret, m, s)
    else if is_neg nbytes
    then (einval, m, s)
    else if not (access_ok verify_read buffer nbytes none)
    then (efault, m, s)
    else (nbytes - left, m', s')

-- The user's block shares no byte with the kernel's local buffer.
abbrev pub OffBuffer : (buffer n local : ℕ) → Type 0
OffBuffer buffer n local = (buffer + n ≤ local) ⊎ (local + tam_buffer ≤ buffer)

pub bytes_at-same :
    (m m' : Bytes) (a b n : ℕ)
    → ((i : ℕ) → i < n → m (a + i) ≡ m' (b + i))
    → bytes_at m a n ≡ bytes_at m' b n
unfolding bytes_at
bytes_at-same m m' a b zero h = refl
bytes_at-same m m' a b (suc n) h =
    let head : m a ≡ m' b = ground (arith, h 0 (omega arith)) in
    let tail : bytes_at m (a + 1) n ≡ bytes_at m' (b + 1) n =
      bytes_at-same m m' (a + 1) (b + 1) n (λ i l. ground (arith, h (i + 1) (omega arith))) in
    cc (head, tail)

pub bytes_at-append :
    (m : Bytes) (a j n : ℕ) → bytes_at m a (j + n) ≡ bytes_at m a j ++ bytes_at m (a + j) n
unfolding bytes_at
bytes_at-append m a zero n =
    let here : a ≡ a + 0 = omega arith in
    let none : 0 + n ≡ n = omega arith in ap (bytes_at m a) none ∙ ap (λ b. bytes_at m b n) here
bytes_at-append m a (suc j) n =
    let shift : a + 1 + j ≡ a + suc j = omega arith in
    let rest : bytes_at m (a + 1) (j + n) ≡ bytes_at m (a + 1) j ++ bytes_at m (a + suc j) n =
      subst (λ b. bytes_at m (a + 1) (j + n) ≡ bytes_at m (a + 1) j ++ bytes_at m b n) shift
        (bytes_at-append m (a + 1) j n) in
    let outer : suc j + n ≡ suc (j + n) = omega arith in
    ap (bytes_at m a) outer ∙ ap (λ l. m a ∷ l) rest

write_console_loop-append :
    (xs ys : List ℕ) (s : Console)
    → write_console_loop (xs ++ ys) s ≡ write_console_loop ys (write_console_loop xs s)
unfolding write_console_loop
write_console_loop-append [] ys s = refl
write_console_loop-append (x ∷ xs) ys s = write_console_loop-append xs ys (printc s x)

-- A copy of at most 512 bytes to the local buffer puts the user's bytes there, and spares the
-- user's block.
copied_there :
    (m : Bytes) (buffer local size : ℕ)
    → OffBuffer buffer size local
    → size ≤ tam_buffer
    → bytes_at (copy_from_user m buffer local size) local size ≡ bytes_at m buffer size
copied_there m buffer local size off le =
    bytes_at-same (copy_from_user m buffer local size) m local buffer size
      (λ i l. ground (arith, copy_data-Copied m buffer local size (omega arith) (local + i)))

spared :
    (m : Bytes) (buffer local size a n : ℕ)
    → OffBuffer buffer size local
    → OffBuffer a n local
    → size ≤ tam_buffer
    → bytes_at (copy_from_user m buffer local size) a n ≡ bytes_at m a n
spared m buffer local size a n off off' le =
    bytes_at-same (copy_from_user m buffer local size) m a a n
      (λ i l. ground (arith, copy_data-Copied m buffer local size (omega arith) (a + i)))

-- No byte is left, and the console shows the bytes of the block.
abbrev AllWritten : (r : ℕ × Bytes × Console) (m : Bytes) (buffer n : ℕ) (s : Console) → Type 0
AllWritten r m buffer n s = (r.0 ≡ 0) × (r.2 ≡ write_console_loop (bytes_at m buffer n) s)

write_tail-some :
    (buffer local n : ℕ) (m : Bytes) (s : Console)
    → 0 < n
    → write_tail buffer local n (m, s) ≡ (
      n - n,
      copy_from_user m buffer local n,
      write_console_loop (bytes_at (copy_from_user m buffer local n) local n) s,
    )
unfolding write_tail
write_tail-some buffer local n m s h = rw (lt→ltb 0 n h)

write_tail-AllWritten :
    (buffer local n : ℕ) (m : Bytes) (s : Console)
    → OffBuffer buffer n local
    → n ≤ tam_buffer
    → AllWritten (write_tail buffer local n (m, s)) m buffer n s
unfolding write_tail bytes_at write_console_loop
write_tail-AllWritten buffer local zero m s off le = (refl, refl)
write_tail-AllWritten buffer local (suc n) m s off le =
    subst (λ r. AllWritten r m buffer (suc n) s)
      (sym (write_tail-some buffer local (suc n) m s (omega arith)))
      (omega arith, ap (λ l. write_console_loop l s) (copied_there m buffer local (suc n) off le))

-- One round of the loop and then the rest, which writes all that the round has left.
round-AllWritten :
    (buffer local n : ℕ) (m : Bytes) (s : Console) (r : ℕ × Bytes × Console)
    → OffBuffer buffer n local
    → tam_buffer < n
    → AllWritten r
        (copy_from_user m buffer local tam_buffer)
        (buffer + tam_buffer)
        (n - tam_buffer)
        (write_console_loop
          (bytes_at (copy_from_user m buffer local tam_buffer) local tam_buffer)
          s)
    → AllWritten r m buffer n s
round-AllWritten buffer local n m s r off l (zeroed, console) =
    let here = copied_there m buffer local tam_buffer (omega arith) (omega arith) in
    let after =
      spared m buffer local tam_buffer (buffer + tam_buffer) (n - tam_buffer) (omega arith)
        (omega arith) (omega arith) in
    let whole : tam_buffer + (n - tam_buffer) ≡ n = omega arith in
    let parts = bytes_at-append m buffer tam_buffer (n - tam_buffer) in
    let both =
      write_console_loop-append (bytes_at m buffer tam_buffer)
        (bytes_at m (buffer + tam_buffer) (n - tam_buffer)) s in
    (zeroed, cc (console, here, after, whole, parts, both))

write_loop-AllWritten :
    (fuel buffer local n : ℕ) (m : Bytes) (s : Console)
    → n ≤ fuel
    → OffBuffer buffer n local
    → AllWritten (write_loop fuel buffer local n (m, s)) m buffer n s
unfolding write_loop
write_loop-AllWritten zero buffer local n m s h off =
    write_tail-AllWritten buffer local n m s off (omega arith)
write_loop-AllWritten (suc fuel) buffer local n m s h off = elim (Bool-cases (ltb tam_buffer n)) [
  | inl more ↦ rw more (
      round-AllWritten buffer local n m s
        (write_loop fuel (buffer + tam_buffer) local (n - tam_buffer) (
          copy_from_user m buffer local tam_buffer,
          write_console_loop (bytes_at (copy_from_user m buffer local tam_buffer) local tam_buffer)
              s,
        ))
        off (ltb→lt tam_buffer n more)
        (write_loop-AllWritten fuel (buffer + tam_buffer) local (n - tam_buffer)
          (copy_from_user m buffer local tam_buffer)
          (write_console_loop (bytes_at (copy_from_user m buffer local tam_buffer) local tam_buffer)
            s)
          (omega arith) (omega (arith, ltb→lt tam_buffer n more))))
  | inr less ↦ rw less (write_tail-AllWritten buffer local n m s off (ground arith))
]

-- `sys_write` to the screen of a block that `access_ok` accepts and that is apart from the
-- kernel's local buffer returns the number of bytes, and the console shows exactly the user's
-- bytes, in order, whatever the size.
pub sys_write-AllWritten :
    (buffer nbytes local : ℕ) (m : Bytes) (s : Console)
    → nbytes < 2 ^ 31
    → access_ok verify_read buffer nbytes none ≡ true
    → OffBuffer buffer nbytes local
    → ((sys_write 1 buffer nbytes local m s).0 ≡ nbytes)
      × ((sys_write 1 buffer nbytes local m s).2 ≡ write_console_loop (bytes_at m buffer nbytes) s)
unfolding sys_write check_fd
sys_write-AllWritten buffer nbytes local m s small ok off =
    let (zeroed, console) =
      write_loop-AllWritten nbytes buffer local nbytes m s (omega arith) off in
    let positive : is_neg nbytes ≡ false = ground arith in
    rw (positive, ok, zeroed) (omega arith, console)

-- `sys_write` refuses, in this order, a channel other than 1, a negative size and a block that
-- `access_ok` rejects; it then writes nothing.
pub sys_write-refuses :
    (fd buffer nbytes local : ℕ) (m : Bytes) (s : Console)
    → (fd ≢ 1 → sys_write fd buffer nbytes local m s ≡ (ebadf, m, s))
      × (fd ≡ 1 → 2 ^ 31 ≤ nbytes → sys_write fd buffer nbytes local m s ≡ (einval, m, s))
      × (fd ≡ 1
          → nbytes < 2 ^ 31
          → access_ok verify_read buffer nbytes none ≡ false
          → sys_write fd buffer nbytes local m s ≡ (efault, m, s))
unfolding sys_write check_fd
sys_write-refuses fd buffer nbytes local m s =
    (λ a. ground arith, λ a b. ground arith, λ a b c. ground arith)

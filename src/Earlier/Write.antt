-- ===== src/Earlier/Write.antt =====
-- zeOSpparri/sys.c: `sys_write` of the earlier kernel.
pub mod Skips
use zeos_soa.Base.{ℕ, zero, suc, ◌+◌, ◌-◌, not, ◌==◌, ltb, if◌then◌else◌, is_neg}
use zeos_soa.Errno.{efault, einval}
use zeos_soa.Utils.{Bytes, copy_data, verify_write}
use zeos_soa.Io.{Console}
use zeos_soa.Sys.Write.{bytes_at}
use zeos_soa.Earlier.Mm.{access_ok}
use zeos_soa.Earlier.Exit.{check_fd, escriptura}
use zeos_soa.Earlier.Devices.{sys_write_console}

abbrev pub buffer_size : ℕ
buffer_size = 256

-- `copy_from_user(buffer, buffer_k, n)` and the output of `buffer_k`, which is at `buffer_k`.
unfoldable pub write_block : (buffer buffer_k n : ℕ) → Bytes × Console → Bytes × Console
write_block buffer buffer_k n (m, s) =
    let m' = copy_data m buffer buffer_k n in (m', sys_write_console (bytes_at m' buffer_k n) s)

-- The loop, on fuel, and the last block. Each round takes 256 off `bytes`.
unfoldable pub write_loop : ℕ → (buffer buffer_k size bytes : ℕ) → Bytes × Console → Bytes × Console
write_loop zero buffer buffer_k size bytes w =
    write_block (buffer + (size - bytes)) buffer_k bytes w
write_loop (suc n) buffer buffer_k size bytes w =
    let rest =
      write_loop n (buffer + buffer_size) buffer_k size (bytes - buffer_size)
        (write_block (buffer + (size - bytes)) buffer_k buffer_size w) in
    let last = write_block (buffer + (size - bytes)) buffer_k bytes w in
    if ltb buffer_size bytes then rest else last

-- All the bytes count as written.
unfoldable pub sys_write : (fd buffer size buffer_k : ℕ) → Bytes × Console → ℕ × Bytes × Console
sys_write fd buffer size buffer_k (m, s) =
    let fd_error = check_fd fd escriptura in
    let (m', s') = write_loop size buffer buffer_k size size (m, s) in
    if not (fd_error == 0)
    then (fd_error, m, s)
    else if buffer == 0
    then (efault, m, s)
    else if is_neg size
    then (einval, m, s)
    else if not (access_ok verify_write buffer size)
    then (efault, m, s)
    else (size, m', s')

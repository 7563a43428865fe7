-- ===== src/Keyboard.antt =====
-- interrupt.c (`keyboard_routine`), io.c and include/io.h (`cBuffer`), sys.c (`sys_getKey`): the
-- ring of keys between the interrupt and the system call.
pub mod Queue
use zeos_soa.Base.{
  ℕ, zero, suc, ◌+◌, ◌-◌, ◌%◌, ◌^◌, Bool, none, List, [], ◌∷◌, ◌==◌, ◌&&◌, ltb, leb, not,
  if◌then◌else◌, add32, sub32, update,
}
use zeos_soa.Errno.{efault, einval}
use zeos_soa.Utils.{Bytes, verify_write, access_ok}

abbrev pub cbuffer_size : ℕ
cbuffer_size = 256

-- `struct c_Buffer`.
pub record CBuffer : Type 0 where
  pub buffer : ℕ → ℕ
  pub rpointer : ℕ
  pub wpointer : ℕ
  pub bwritten : ℕ

-- The characters of the keys. The file's encoding makes four of them three bytes long: of such a
-- constant the last byte, 0xbd, is kept.
abbrev pub char_map : List ℕ
char_map =
    0 ∷ 0 ∷ b'1' ∷ b'2' ∷ b'3' ∷ b'4' ∷ b'5' ∷ b'6' ∷ b'7' ∷ b'8' ∷ b'9' ∷ b'0' ∷ b'\'' ∷ 0xbd ∷ 0
    ∷ 0 ∷ b'q' ∷ b'w' ∷ b'e' ∷ b'r' ∷ b't' ∷ b'y' ∷ b'u' ∷ b'i' ∷ b'o' ∷ b'p' ∷ b'`' ∷ b'+' ∷ 0 ∷ 0
    ∷ b'a' ∷ b's' ∷ b'd' ∷ b'f' ∷ b'g' ∷ b'h' ∷ b'j' ∷ b'k' ∷ b'l' ∷ 0xbd ∷ 0 ∷ 0xbd ∷ 0 ∷ 0xbd
    ∷ b'z' ∷ b'x' ∷ b'c' ∷ b'v' ∷ b'b' ∷ b'n' ∷ b'm' ∷ b',' ∷ b'.' ∷ b'-' ∷ 0 ∷ b'*' ∷ 0 ∷ 0 ∷ 0 ∷ 0
    ∷ 0 ∷ 0 ∷ 0 ∷ 0 ∷ 0 ∷ 0 ∷ 0 ∷ 0 ∷ 0 ∷ 0 ∷ 0 ∷ b'7' ∷ b'8' ∷ b'9' ∷ b'-' ∷ b'4' ∷ b'5' ∷ b'6'
    ∷ b'+' ∷ b'1' ∷ b'2' ∷ b'3' ∷ b'0' ∷ 0 ∷ 0 ∷ 0 ∷ b'<' ∷ 0 ∷ 0 ∷ 0 ∷ 0 ∷ 0 ∷ 0 ∷ 0 ∷ 0 ∷ 0 ∷ 0
    ∷ 0 ∷ []

-- `array[i]`; out of range it is what lies `i` bytes from the array's start, `beyond i`.
unfoldable pub read_from : List ℕ → (beyond : ℕ → ℕ) → (i : ℕ) → ℕ
read_from [] beyond i = beyond i
read_from (c ∷ cs) beyond zero = c
read_from (c ∷ cs) beyond (suc i) = read_from cs (λ j. beyond (j + 1)) i

-- `char_map[c&0x7f]`.
unfoldable pub key_char : (beyond : ℕ → ℕ) → (scan : ℕ) → ℕ
key_char beyond scan = read_from char_map beyond (scan % 128)

-- `scan` is the byte read from port 0x60.
unfoldable pub keyboard_routine : (beyond : ℕ → ℕ) → (scan : ℕ) → CBuffer → CBuffer
keyboard_routine beyond scan b =
    if leb 128 (scan % 256) && ltb b.wpointer cbuffer_size
    then record {
      buffer = update b.buffer b.wpointer (key_char beyond scan);
      rpointer = b.rpointer;
      wpointer = add32 b.wpointer 1 % cbuffer_size;
      bwritten = add32 b.bwritten 1;
    }
    else b

-- `p` is the user's pointer, and `m` memory.
unfoldable pub sys_get_key : (p : ℕ) → Bytes → CBuffer → ℕ × Bytes × CBuffer
sys_get_key p m b =
    if b.bwritten == 0
    then (0, m, b)
    else if p == 0
    then (einval, m, b)
    else if not (access_ok verify_write p 1 none)
    then (efault, m, b)
    else (
      1,
      update m p (b.buffer b.rpointer),
      record b { rpointer = add32 b.rpointer 1 % cbuffer_size; bwritten = sub32 b.bwritten 1 },
    )

-- ===== src/Tests/Devices.antt =====
-- Applications of the theorems on the console, the keys, the gates and `sys_write`.
use zeos_soa.Base.{ℕ, ◌≡◌, inr, true, none, refl, List, [], ◌∷◌, arith, update}
use zeos_soa.Io.{Console, write_console_loop}
use zeos_soa.Io.Screen.{OnScreen, SameBeyond, write_console_loop-OnScreen}
use zeos_soa.Utils.{verify_read, verify_write, access_ok}
use zeos_soa.Utils.Access.{access_ok_complete}
use zeos_soa.Keyboard.{CBuffer, key_char, keyboard_routine, sys_get_key}
use zeos_soa.Keyboard.Queue.{Holds, keyboard_routine-Holds, sys_get_key-Holds}
use zeos_soa.Interrupt.{Gate}
use zeos_soa.Sys.Write.{bytes_at, sys_write, sys_write-AllWritten}
use zeos_soa.Tests.State.{machine}

-- The cursor in the last column.
abbrev edge : Console
edge = record (machine.console) { x = 79; y = 24 }

write_console_loop-OnScreen_example :
    OnScreen (write_console_loop (b'h' ∷ b'i' ∷ []) edge)
    × SameBeyond edge (write_console_loop (b'h' ∷ b'i' ∷ []) edge)
write_console_loop-OnScreen_example =
    write_console_loop-OnScreen (b'h' ∷ b'i' ∷ []) edge
      (record { column = omega arith; row = omega arith })

abbrev null : ℕ
null = 0

abbrev channel : ℕ
channel = 2

abbrev three : ℕ
three = 3

abbrev other_vector : ℕ
other_vector = 33

abbrev one_key : List ℕ
one_key = 255 ∷ []

-- A ring whose one key lies in the last place.
abbrev ring : CBuffer
ring = record { buffer = λ i. i; rpointer = 255; wpointer = 0; bwritten = 1 }

ring-Holds : Holds ring (255 ∷ [])
ring-Holds = record {
  slots = (refl, tt);
  reader = omega arith;
  writer = refl;
  written = refl;
  fits = omega arith;
}

keyboard_routine-Holds_example :
    Holds (keyboard_routine (λ _. 0) 0x90 ring) (255 ∷ key_char (λ _. 0) 0x90 ∷ [])
keyboard_routine-Holds_example =
    keyboard_routine-Holds (λ _. 0) 0x90 ring (255 ∷ []) ring-Holds (omega arith) (omega arith)
      (omega arith)

sys_get_key-Holds_example :
    ((sys_get_key 0x108000 (λ _. 0) ring).0 ≡ 1)
    × ((sys_get_key 0x108000 (λ _. 0) ring).1 ≡ update (λ _. 0) 0x108000 255)
    × Holds (sys_get_key 0x108000 (λ _. 0) ring).2 []
sys_get_key-Holds_example =
    sys_get_key-Holds 0x108000 (λ _. 0) ring 255 [] ring-Holds (omega arith) accepted
  where
    accepted : access_ok verify_write 0x108000 1 none ≡ true
    accepted = access_ok_complete verify_write 0x108000 1 none (omega arith) (omega arith)

abbrev zero_gate : Gate
zero_gate = record { low_offset = 0; segment_selector = 0; flags = 0; high_offset = 0 }

sys_write-AllWritten_example :
    ((sys_write 1 0x108000 3 0x11000 (λ a. 65) edge).0 ≡ 3)
    × ((sys_write 1 0x108000 3 0x11000 (λ a. 65) edge).2
        ≡ write_console_loop (bytes_at (λ a. 65) 0x108000 3) edge)
sys_write-AllWritten_example =
    sys_write-AllWritten 0x108000 3 0x11000 (λ a. 65) edge (omega arith) accepted
      (inr (omega arith))
  where
    accepted : access_ok verify_read 0x108000 3 none ≡ true
    accepted = access_ok_complete verify_read 0x108000 3 none (omega arith) (omega arith)

-- ===== src/Interrupt.antt =====
-- interrupt.c, include/types.h: the gates of the interrupt table and the clock's routine.
pub mod Gates
pub mod Clock
use Prim.Native.Nat.{bit_or}
use zeos_soa.Base.{ℕ, ◌+◌, ◌*◌, ◌/◌, ◌%◌, ◌^◌, ◌<◌, ◌≡◌, ◌≢◌, refl, arith, add32, update}
use zeos_soa.Io.{Console}
use zeos_soa.Kernel.{Kernel}
use zeos_soa.Sched.{schedule}

-- `Gate`.
pub record Gate : Type 0 where
  pub low_offset : ℕ
  pub segment_selector : ℕ
  pub flags : ℕ
  pub high_offset : ℕ

abbrev pub high_word : ℕ → ℕ
high_word address = address / 2 ^ 16 % 2 ^ 16

abbrev pub low_word : ℕ → ℕ
low_word address = address % 2 ^ 16

abbrev pub kernel_cs : ℕ
kernel_cs = 0x10

unfoldable pub set_interrupt_handler :
    (idt : ℕ → Gate) → (vector handler max_accessible_from_pl : ℕ) → ℕ → Gate
set_interrupt_handler idt vector handler max_accessible_from_pl = update idt vector (record {
  low_offset = low_word handler;
  segment_selector = kernel_cs;
  flags = bit_or (max_accessible_from_pl * 2 ^ 13 % 2 ^ 16) 0x8e00;
  high_offset = high_word handler;
})

-- `setTrapHandler` writes the same kind of gate, an interrupt gate.
unfoldable pub set_trap_handler :
    (idt : ℕ → Gate) → (vector handler max_accessible_from_pl : ℕ) → ℕ → Gate
set_trap_handler idt vector handler max_accessible_from_pl = update idt vector (record {
  low_offset = low_word handler;
  segment_selector = kernel_cs;
  flags = bit_or (max_accessible_from_pl * 2 ^ 13 % 2 ^ 16) 0x8e00;
  high_offset = high_word handler;
})

-- `show_clock` stands for `zeos_show_clock`, which writes the clock to the screen.
unfoldable pub clock_routine : (show_clock : ℕ → Console → Console) → Kernel → Kernel
clock_routine show_clock k =
    let k = record k { console = show_clock k.zeos_ticks k.console } in
    schedule (record k { zeos_ticks = add32 k.zeos_ticks 1 })

-- `setIdt`'s own two gates, for the clock and the keyboard.
unfoldable pub set_idt : (clock_handler keyboard_handler : ℕ) → (idt : ℕ → Gate) → ℕ → Gate
set_idt clock_handler keyboard_handler idt =
    set_interrupt_handler (set_interrupt_handler idt 32 clock_handler 0) 33 keyboard_handler 0

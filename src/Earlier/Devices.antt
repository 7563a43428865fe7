-- ===== src/Earlier/Devices.antt =====
-- zeOSpparri/io.c, devices.c, interrupt.c: the console, the keyboard and the clock of the earlier
-- kernel.
use Prim.Native.Nat.{bit_or}
use zeos_soa.Base.{
  ℕ, zero, suc, ◌+◌, ◌*◌, ◌/◌, ◌%◌, ◌^◌, ◌==◌, leb, if◌then◌else◌, update, add32, List, [], ◌∷◌,
}
use zeos_soa.Io.{Console, num_columns, new_line}
use zeos_soa.Hex.{hex_char}
use zeos_soa.Interrupt.{Gate, set_interrupt_handler}
use zeos_soa.Earlier.{Kernel}
use zeos_soa.Earlier.Sched.{scheduler}

-- `(Word) (c & 0x00FF) | 0x0200`.
unfoldable pub cell : ℕ → ℕ
cell c = bit_or (c % 256) 0x0200

-- `inb` and the debug port stand in the fields of the console.
unfoldable pub printc : Console → ℕ → Console
printc s c =
    let s = record s { port = c ∷ s.port } in
    if c == b'\n'
    then new_line s
    else let s = record s { screen = update s.screen (s.y * num_columns + s.x) (cell c) } in
      let s = record s { x = (s.x + 1) % 256 } in if leb num_columns s.x then new_line s else s

unfoldable pub printc_xy : Console → (mx my c : ℕ) → Console
printc_xy s mx my c =
    let s' = printc (record s { x = mx % 256; y = my % 256 }) c in record s' { x = s.x; y = s.y }

-- The bytes of a C string, up to its NUL.
unfoldable pub printk : Console → List ℕ → Console
printk s [] = s
printk s (c ∷ cs) = let rest = printk (printc s c) cs in if c == 0 then s else rest

unfoldable pub sys_write_console : List ℕ → Console → Console
sys_write_console [] s = s
sys_write_console (c ∷ cs) s = sys_write_console cs (printc s c)

-- `tecla` is the byte that the keyboard gives, and `char_map` the table of characters.
unfoldable pub kbd_routine : (char_map : ℕ → ℕ) → (tecla : ℕ) → Console → Console
kbd_routine char_map tecla s =
    let c = char_map (tecla % 128) in
    if tecla / 128 % 2 == 0 then if c == 0 then printc_xy s 0 0 b'C' else printc_xy s 0 0 c else s

-- The loop of `pf_routine`: `n` digits are left, the highest first.
unfoldable pub address_loop : ℕ → (eip : ℕ) → Console → Console
address_loop zero eip s = s
address_loop (suc n) eip s = address_loop n eip (printc s (hex_char (eip / 2 ^ (4 * n) % 16)))

-- What `pf_routine` writes before the last `printk`; the two strings are parameters.
unfoldable pub pf_routine : (message prefix : List ℕ) → (eip : ℕ) → Console → Console
pf_routine message prefix eip s = address_loop 8 eip (printk (printk s message) prefix)

-- `show_clock` stands for `zeos_show_clock`, which writes the clock to the screen.
unfoldable pub clock_routine : (show_clock : ℕ → Console → Console) → Kernel → Kernel
clock_routine show_clock k =
    let k = record k { console = show_clock k.zeos_ticks k.console } in
    scheduler (record k { zeos_ticks = add32 k.zeos_ticks 1 })

-- `setIdt`'s own three gates.
unfoldable pub set_idt : (kbd_handler pf_handler clock_handler : ℕ) → (idt : ℕ → Gate) → ℕ → Gate
set_idt kbd_handler pf_handler clock_handler idt =
    set_interrupt_handler
      (set_interrupt_handler (set_interrupt_handler idt 33 kbd_handler 0) 14 pf_handler 0) 32
      clock_handler 0

-- ===== src/Io.antt =====
-- io.c, devices.c: the text console.
pub mod Screen
pub mod Sprites
use Prim.Native.Nat.{bit_or}
use zeos_soa.Base.{
  ℕ, zero, suc, ◌+◌, ◌*◌, ◌%◌, ◌^◌, Bool, true, false, not, ◌||◌, none, List, [], ◌∷◌, ◌==◌, ltb,
  leb, if◌then◌else◌, is_neg, update,
}
use zeos_soa.Errno.{efault, einval}
use zeos_soa.Utils.{verify_read, access_ok}

abbrev pub num_columns : ℕ
num_columns = 80

abbrev pub num_rows : ℕ
num_rows = 25

-- The cursor and colours, the words of the screen memory from 0xb8000 on, and the bytes sent to
-- the debug port 0xe9, the last one first.
pub record Console : Type 0 where
  pub x : ℕ
  pub y : ℕ
  pub text_color : ℕ
  pub text_background : ℕ
  pub screen : ℕ → ℕ
  pub port : List ℕ

-- `(Word) (c & 0x00FF) | (textColor << 8) | (textBackground << 12)`, stored as a `Word`.
unfoldable pub cell : Console → ℕ → ℕ
cell s c = bit_or (bit_or (c % 256) (s.text_color * 2 ^ 8)) (s.text_background * 2 ^ 12) % 2 ^ 16

abbrev pub new_line : Console → Console
new_line s = record s { x = 0; y = (s.y + 1) % num_rows }

-- The write of a character that is not a new line, at the cursor.
abbrev pub put_cell : Console → ℕ → Console
put_cell s c = record s { screen = update s.screen (s.y * num_columns + s.x) (cell s c) }

unfoldable pub printc : Console → ℕ → Console
printc s c =
    let s = record s { port = c ∷ s.port } in
    if c == b'\n'
    then new_line s
    else let s = put_cell s c in
      let s = record s { x = (s.x + 1) % 256 } in if leb num_columns s.x then new_line s else s

unfoldable pub printc_xy : Console → (mx my c : ℕ) → Console
printc_xy s mx my c =
    let s' = printc (record s { x = mx % 256; y = my % 256 }) c in record s' { x = s.x; y = s.y }

-- The bytes of a C string, up to its NUL.
unfoldable pub printk : Console → List ℕ → Console
printk s [] = s
printk s (c ∷ cs) = let rest = printk (printc s c) cs in if c == 0 then s else rest

-- `posX` is the row and `posY` the column.
unfoldable pub cursor_move : Console → (pos_x pos_y : ℕ) → ℕ × Console
cursor_move s pos_x pos_y =
    if (is_neg pos_x || leb num_rows pos_x) || (is_neg pos_y || leb num_columns pos_y)
    then (einval, s)
    else (0, record s { x = pos_y; y = pos_x })

unfoldable pub asthetic_change : Console → (color background : ℕ) → ℕ × Console
asthetic_change s color background =
    if (is_neg color || ltb 15 color) || (is_neg background || ltb 15 background)
    then (einval, s)
    else (0, record s { text_color = color; text_background = background })

-- `Sprite`; `content` is an address.
pub record Sprite : Type 0 where
  pub x : ℕ
  pub y : ℕ
  pub content : ℕ

-- One row of `spriteDraw`: the rounds left and the column. A NUL in the content ends the call.
unfoldable pub sprite_row_loop :
    ℕ → (byte : ℕ → ℕ) → (pos_x pos_y : ℕ) → Sprite → (row col : ℕ) → Console → Bool × Console
sprite_row_loop zero byte pos_x pos_y sp row col s = (true, s)
sprite_row_loop (suc n) byte pos_x pos_y sp row col s =
    let c = byte (sp.content + (row * sp.y + col)) in
    elim (ltb (sp.x * sp.y) (row * sp.y + col) || c == 0) [
      | true ↦ (false, s)
      | false ↦
          sprite_row_loop n byte pos_x pos_y sp row (col + 1)
            (printc_xy s (pos_x + col) (pos_y + row) c)
    ]

unfoldable pub sprite_loop :
    ℕ → (byte : ℕ → ℕ) → (pos_x pos_y : ℕ) → Sprite → (row : ℕ) → Console → ℕ × Console
sprite_loop zero byte pos_x pos_y sp row s = (0, s)
sprite_loop (suc n) byte pos_x pos_y sp row s =
    let (done, s') = sprite_row_loop sp.y byte pos_x pos_y sp row 0 s in
    elim done [ true ↦ sprite_loop n byte pos_x pos_y sp (row + 1) s' | false ↦ (efault, s') ]

abbrev pub not_positive : ℕ → Bool
not_positive w = is_neg w || w == 0

-- `byte` is the memory, `sp` the address of a sprite and `at_sp` the sprite that lies there.
unfoldable pub sprite_draw :
    (byte : ℕ → ℕ) → (pos_x pos_y sp : ℕ) → (at_sp : Sprite) → Console → ℕ × Console
sprite_draw byte pos_x pos_y sp at_sp s =
    if not (access_ok verify_read sp 12 none)
    then (einval, s)
    else if (leb num_rows pos_y || is_neg pos_y) || (leb num_columns pos_x || is_neg pos_x)
    then (einval, s)
    else if sp == 0 || at_sp.content == 0
    then (efault, s)
    else if (not_positive at_sp.x || not_positive at_sp.y)
        || (ltb num_rows at_sp.x || ltb num_columns at_sp.y)
    then (einval, s)
    else sprite_loop at_sp.x byte pos_x pos_y at_sp 0 s

-- devices.c: the bytes of a buffer of `size` bytes, in order.
unfoldable pub write_console_loop : List ℕ → Console → Console
write_console_loop [] s = s
write_console_loop (c ∷ cs) s = write_console_loop cs (printc s c)

-- ===== src/Io/Screen.antt =====
-- The cursor and the screen of io.c.
use zeos_soa.Base.{ℕ, ◌*◌, ◌≤◌, ◌<◌, ◌≡◌, ◌⊎◌, ◌∙◌, refl, List, [], ◌∷◌, arith}
use zeos_soa.Io.{
  Console, num_columns, num_rows, printc, cursor_move, asthetic_change, write_console_loop,
}
use zeos_soa.Errno.{einval}

-- The cursor is on the 25 by 80 screen.
pub record OnScreen (s : Console) : Type 0 where
  pub column : s.x < num_columns
  pub row : s.y < num_rows

-- `b` differs from `a` at most in the 2000 words of the screen.
abbrev pub SameBeyond : Console → Console → Type 0
SameBeyond a b = (i : ℕ) → num_rows * num_columns ≤ i → b.screen i ≡ a.screen i

-- `printc` from a cursor on the screen leaves it on the screen and writes to no memory beyond the
-- screen, whatever the character.
pub printc-OnScreen :
    (s : Console) (c : ℕ) → OnScreen s → OnScreen (printc s c) × SameBeyond s (printc s c)
unfolding printc
printc-OnScreen s c v = (ground arith, λ i h. ground arith)

-- Writing a buffer of any bytes keeps the cursor on the screen and spares all other memory.
pub write_console_loop-OnScreen :
    (cs : List ℕ) (s : Console)
    → OnScreen s
    → OnScreen (write_console_loop cs s) × SameBeyond s (write_console_loop cs s)
unfolding write_console_loop
write_console_loop-OnScreen [] s v = (v, λ i h. refl)
write_console_loop-OnScreen (c ∷ cs) s v =
    let (v', same) = printc-OnScreen s c v in
    let (v'', same') = write_console_loop-OnScreen cs (printc s c) v' in
    (v'', λ i h. same' i h ∙ same i h)

-- `cursor_move` accepts exactly the places on the screen: it then puts the cursor there, and
-- otherwise returns EINVAL and changes nothing.
pub cursor_move-cases :
    (s : Console) (pos_x pos_y : ℕ)
    → ((pos_x < num_rows)
        × (pos_y < num_columns)
        × (cursor_move s pos_x pos_y ≡ (0, record s { x = pos_y; y = pos_x })))
      ⊎ (((num_rows ≤ pos_x) ⊎ (num_columns ≤ pos_y)) × (cursor_move s pos_x pos_y ≡ (einval, s)))
unfolding cursor_move
cursor_move-cases s pos_x pos_y = ground arith

-- `asthetic_change` accepts exactly the sixteen colours for text and background; otherwise it
-- returns EINVAL and changes nothing.
pub asthetic_change-cases :
    (s : Console) (color background : ℕ)
    → ((color < 16)
        × (background < 16)
        × (asthetic_change s color background
            ≡ (0, record s { text_color = color; text_background = background })))
      ⊎ (((16 ≤ color) ⊎ (16 ≤ background)) × (asthetic_change s color background ≡ (einval, s)))
unfolding asthetic_change
asthetic_change-cases s color background = ground arith

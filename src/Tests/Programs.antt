-- ===== src/Tests/Programs.antt =====
-- Applications of the theorems on the C library and on sprites.
use zeos_soa.Base.{ℕ, ◌+◌, ◌-◌, ◌*◌, ◌<◌, ◌≡◌, ◌&&◌, ltb, leb, if◌then◌else◌, refl, some, arith}
use zeos_soa.Utils.{Bytes}
use zeos_soa.Libc.{perror}
use zeos_soa.Libc.Numeral.{Prints, perror-Prints}
use zeos_soa.Earlier.Libc.{perror as earlier_perror}
use zeos_soa.Io.{Sprite, num_columns, cell, sprite_draw}
use zeos_soa.Io.Sprites.{SameInk, Fits, at_cell}
use zeos_soa.Io.Sprites.Draw.{CanDraw, sprite_draw_lem}
use zeos_soa.Utils.{in_user_pages, access_ok}
use zeos_soa.Tests.State.{machine}

abbrev sevens : Bytes
sevens = λ _. 7

-- The error EINVAL.
perror-Prints_example :
    (n : ℕ) × (m' : Bytes) × Prints 22 0x500 n sevens m'
    × (perror 22 0x500 sevens ≡ some (record { buffer = 0x500; size = n }, m'))
perror-Prints_example = perror-Prints 22 0x500 sevens (omega arith)

-- Two rows of three letters.
abbrev letters : Sprite
letters = record { x = 2; y = 3; content = 0x100100 }

abbrev letter : ℕ → ℕ
letter _ = b'A'

letters-Fits : Fits letter 10 5 letters
letters-Fits = record { rows = omega arith; columns = omega arith; text = λ i h. omega arith }

letters-CanDraw : CanDraw 10 5 0x100080 letters
unfolding access_ok in_user_pages
letters-CanDraw = record {
  readable = refl;
  place = omega arith;
  here = omega arith;
  content = omega arith;
  size = omega arith;
}

sprite_draw_lem_example :
    let s = machine.console in
    let r = sprite_draw letter 10 5 0x100080 letters s in
    (r.0 ≡ 0)
    × SameInk s r.1
    × ((x y : ℕ)
        → x < num_columns
        → at_cell r.1 x y ≡ (
            if (leb 5 y && ltb y (5 + 2)) && (leb 10 x && ltb x (10 + 3))
            then cell s (letter (0x100100 + ((y - 5) * 3 + (x - 10))))
            else at_cell s x y))
sprite_draw_lem_example =
    sprite_draw_lem letter 10 5 0x100080 letters machine.console letters-CanDraw letters-Fits

-- ===== src/Io/Sprites/Draw.antt =====
-- io.c: what `spriteDraw` shows, all rows together.
use native.Mathlib.Decide.{ℕ_discrete}
use zeos_soa.Base.{
  ℕ, zero, suc, ◌+◌, ◌-◌, ◌*◌, ◌<◌, ◌≡◌, ◌≢◌, refl, ap, ◌∙◌, subst, true, ◌&&◌, ltb, leb,
  if◌then◌else◌, none, arith,
}
use zeos_soa.Utils.{verify_read, access_ok}
use zeos_soa.Io.{
  Console, Sprite, num_columns, num_rows, cell, sprite_row_loop, sprite_loop, sprite_draw,
}
use zeos_soa.Io.Sprites.{
  SameInk, cell-SameInk, SameInk-trans, Fits, at_cell, row_shows, sprite_row_loop_lem,
}

module _ (byte : ℕ → ℕ) (pos_x pos_y : ℕ) (sp : Sprite) (f : Fits byte pos_x pos_y sp) where
  -- What the rows from `row` on are to show.
  abbrev rows_show : Console → (row x y : ℕ) → ℕ
  rows_show s row x y =
      if (leb (pos_y + row) y && ltb y (pos_y + sp.x)) && (leb pos_x x && ltb x (pos_x + sp.y))
      then cell s (byte (sp.content + ((y - pos_y) * sp.y + (x - pos_x))))
      else at_cell s x y

  rows_step :
      (row : ℕ) (s s' : Console)
      → row < sp.x
      → SameInk s s'
      → (x y : ℕ) → at_cell s' x y ≡ row_shows byte pos_x pos_y sp f s row 0 x y
      → rows_show s' (row + 1) x y ≡ rows_show s row x y
  rows_step row s s' h ink x y shown =
      let here = byte (sp.content + ((y - pos_y) * sp.y + (x - pos_x))) in
      let same = cell-SameInk s s' here ink in
      elim (ℕ_discrete y (pos_y + row)) [
        | no other ↦ ground (arith, shown, same, other)
        | yes at_row ↦
            let back : y - pos_y ≡ row = omega arith in
            let cells : cell s here ≡ cell s (byte (sp.content + (row * sp.y + (x - pos_x)))) =
              ap (λ r. cell s (byte (sp.content + (r * sp.y + (x - pos_x))))) back in
            ground (arith, shown, cells, at_row)
      ]

  sprite_loop_lem :
      (n row : ℕ) (s : Console)
      → row + n ≡ sp.x
      → let r = sprite_loop n byte pos_x pos_y sp row s in
        (r.0 ≡ 0)
        × SameInk s r.1
        × ((x y : ℕ) → x < num_columns → at_cell r.1 x y ≡ rows_show s row x y)
  unfolding sprite_loop
  sprite_loop_lem zero row s e =
      (refl, record { color = refl; background = refl; x = refl; y = refl }, λ x y l. ground arith)
  sprite_loop_lem (suc n) row s e =
      let s' = (sprite_row_loop sp.y byte pos_x pos_y sp row 0 s).1 in
      let (done, ink, shows) =
        sprite_row_loop_lem byte pos_x pos_y sp f sp.y row 0 s (omega (arith, e)) (omega arith) in
      let (ok, ink', shows') = sprite_loop_lem n (row + 1) s' (omega (arith, e)) in
      rw (done, sprite_loop)
        (
          ok,
          SameInk-trans s s' _ ink ink',
          λ x y l. shows' x y l ∙ rows_step row s s' (omega (arith, e)) ink x y (shows x y l),
        )

-- What the call is to be given: the address of a sprite that the caller may read, and a sprite with
-- content, of at least one row and one column, at a place on the screen.
pub record CanDraw (pos_x pos_y at : ℕ) (sp : Sprite) : Type 0 where
  pub readable : access_ok verify_read at 12 none ≡ true
  pub place : (pos_x < num_columns) × (pos_y < num_rows)
  pub here : at ≢ 0
  pub content : sp.content ≢ 0
  pub size : (0 < sp.x) × (0 < sp.y)

sprite_draw-eq :
    (byte : ℕ → ℕ) (pos_x pos_y at : ℕ) (sp : Sprite) (s : Console)
    → CanDraw pos_x pos_y at sp
    → Fits byte pos_x pos_y sp
    → sprite_draw byte pos_x pos_y at sp s ≡ sprite_loop sp.x byte pos_x pos_y sp 0 s
unfolding sprite_draw
sprite_draw-eq byte pos_x pos_y at sp s can f =
    let rows = f.rows in
    let columns = f.columns in
    rw can.readable (ground (arith, rows, columns, can.place, can.here, can.content, can.size))

-- `spriteDraw` of a sprite that fits on the screen and has a visible character in each place
-- returns 0, and then each cell of the rectangle shows the character of its row and column in the
-- colours that were set, every other cell of the screen is as it was, and so are the cursor and the
-- colours.
pub sprite_draw_lem :
    (byte : ℕ → ℕ) (pos_x pos_y at : ℕ) (sp : Sprite) (s : Console)
    → CanDraw pos_x pos_y at sp
    → Fits byte pos_x pos_y sp
    → let r = sprite_draw byte pos_x pos_y at sp s in
      (r.0 ≡ 0)
      × SameInk s r.1
      × ((x y : ℕ)
          → x < num_columns
          → at_cell r.1 x y ≡ (
              if (leb pos_y y && ltb y (pos_y + sp.x)) && (leb pos_x x && ltb x (pos_x + sp.y))
              then cell s (byte (sp.content + ((y - pos_y) * sp.y + (x - pos_x))))
              else at_cell s x y))
sprite_draw_lem byte pos_x pos_y at sp s can f =
    let (ok, ink, shows) = sprite_loop_lem byte pos_x pos_y sp f sp.x 0 s (omega arith) in
    let start : pos_y + 0 ≡ pos_y = omega arith in
    rw (sprite_draw-eq byte pos_x pos_y at sp s can f) (
      ok,
      ink,
      λ x y l.
          subst
            (λ r. at_cell (sprite_loop sp.x byte pos_x pos_y sp 0 s).1 x y ≡ (
              if (leb r y && ltb y (pos_y + sp.x)) && (leb pos_x x && ltb x (pos_x + sp.y))
              then cell s (byte (sp.content + ((y - pos_y) * sp.y + (x - pos_x))))
              else at_cell s x y))
            start (shows x y l),
    )

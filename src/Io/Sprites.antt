-- ===== src/Io/Sprites.antt =====
-- io.c: what `spriteDraw` shows.
pub mod Draw
use native.Mathlib.Decide.{dec_lt, ℕ_discrete}
use zeos_soa.Base.{
  ℕ, zero, suc, ◌+◌, ◌-◌, ◌*◌, ◌%◌, ◌^◌, ◌≤◌, ◌<◌, ◌≡◌, ◌≢◌, refl, sym, ap, ◌∙◌, subst, Bool, true,
  false, not, ◌&&◌, ◌||◌, ◌==◌, ltb, leb, if◌then◌else◌, none, is_neg, update, arith,
}
use zeos_soa.Utils.{verify_read, access_ok}
use zeos_soa.Io.{
  Console, Sprite, num_columns, num_rows, cell, printc, printc_xy, sprite_row_loop, sprite_loop,
  sprite_draw,
}

-- The cursor and the colours are the same.
pub record SameInk (s s' : Console) : Type 0 where
  pub color : s'.text_color ≡ s.text_color
  pub background : s'.text_background ≡ s.text_background
  pub x : s'.x ≡ s.x
  pub y : s'.y ≡ s.y

pub cell-SameInk : (s s' : Console) (c : ℕ) → SameInk s s' → cell s' c ≡ cell s c
unfolding cell
cell-SameInk s s' c h = cc (h.color, h.background)

printc_xy-SameInk : (s : Console) (mx my c : ℕ) → SameInk s (printc_xy s mx my c)
unfolding printc_xy printc
printc_xy-SameInk s mx my c = record {
  color = ground arith;
  background = ground arith;
  x = refl;
  y = refl;
}

-- A character other than a new line goes to its place on the screen and nowhere else.
screen-printc_xy :
    (s : Console) (mx my c a : ℕ)
    → mx < num_columns
    → my < num_rows
    → c ≢ b'\n'
    → (printc_xy s mx my c).screen a ≡ (if a == my * num_columns + mx then cell s c else s.screen a)
unfolding printc_xy printc cell
screen-printc_xy s mx my c a hx hy nl =
    let x : mx % 256 ≡ mx = omega arith in
    let y : my % 256 ≡ my = omega arith in rw (x, y) (ground arith)

pub SameInk-trans : (s s' s'' : Console) → SameInk s s' → SameInk s' s'' → SameInk s s''
SameInk-trans s s' s'' h h' = record {
  color = h'.color ∙ h.color;
  background = h'.background ∙ h.background;
  x = h'.x ∙ h.x;
  y = h'.y ∙ h.y;
}

-- The sprite at (`pos_x`, `pos_y`) fits on the screen, and its content has neither NUL nor new line.
pub record Fits (byte : ℕ → ℕ) (pos_x pos_y : ℕ) (sp : Sprite) : Type 0 where
  pub rows : pos_y + sp.x ≤ num_rows
  pub columns : pos_x + sp.y ≤ num_columns
  pub text :
      (i : ℕ) → i < sp.x * sp.y → (byte (sp.content + i) ≢ 0) × (byte (sp.content + i) ≢ b'\n')

-- The word of the screen at the column `x` of the row `y`.
abbrev pub at_cell : Console → (x y : ℕ) → ℕ
at_cell s x y = s.screen (y * num_columns + x)

module _ (byte : ℕ → ℕ) (pos_x pos_y : ℕ) (sp : Sprite) (f : Fits byte pos_x pos_y sp) where
  -- What the rows from `row` on, and in the first of these the columns from `col` on, are to show.
  abbrev pub row_shows : Console → (row col x y : ℕ) → ℕ
  row_shows s row col x y =
      if y == pos_y + row && (leb (pos_x + col) x && ltb x (pos_x + sp.y))
      then cell s (byte (sp.content + (row * sp.y + (x - pos_x))))
      else at_cell s x y

  inside : (row col : ℕ) → row < sp.x → col < sp.y → row * sp.y + col < sp.x * sp.y
  inside row col h l = grind arith

  goes_on :
      (row col : ℕ)
      → row < sp.x
      → col < sp.y
      → (ltb (sp.x * sp.y) (row * sp.y + col) || byte (sp.content + (row * sp.y + col)) == 0)
        ≡ false
  goes_on row col h l =
      let i = inside row col h l in let (some_char, _) = f.text (row * sp.y + col) i in ground arith

  -- The character at the row `row` and the column `col`, on its own.
  row_step :
      (row col : ℕ) (s : Console)
      → row < sp.x
      → col < sp.y
      → (x y : ℕ) → x < num_columns
      → row_shows
          (printc_xy s (pos_x + col) (pos_y + row) (byte (sp.content + (row * sp.y + col))))
          row
          (col + 1)
          x
          y
        ≡ row_shows s row col x y
  row_step row col s h l x y hx =
      let c = byte (sp.content + (row * sp.y + col)) in
      let d = byte (sp.content + (row * sp.y + (x - pos_x))) in
      let s1 = printc_xy s (pos_x + col) (pos_y + row) c in
      let (_, no_line) = f.text (row * sp.y + col) (inside row col h l) in
      let ink = cell-SameInk s s1 d (printc_xy-SameInk s (pos_x + col) (pos_y + row) c) in
      let shown =
        screen-printc_xy s (pos_x + col) (pos_y + row) c (y * num_columns + x)
          (omega (arith, f.columns)) (omega (arith, f.rows)) no_line in
      elim (ℕ_discrete y (pos_y + row)) [
        | no other ↦ ground (arith, shown, other)
        | yes same ↦ elim (ℕ_discrete x (pos_x + col)) [
          | no beside ↦ ground (arith, shown, ink, beside, same)
          | yes here ↦
              let back : x - pos_x ≡ col = omega arith in
              let same_char : d ≡ c = ap (λ i. byte (sp.content + (row * sp.y + i))) back in
              let cells : cell s d ≡ cell s c = ap (cell s) same_char in
              ground (arith, shown, cells, here, same)
        ]
      ]

  pub sprite_row_loop_lem :
      (n row col : ℕ) (s : Console)
      → row < sp.x
      → col + n ≡ sp.y
      → let r = sprite_row_loop n byte pos_x pos_y sp row col s in
        (r.0 ≡ true)
        × SameInk s r.1
        × ((x y : ℕ) → x < num_columns → at_cell r.1 x y ≡ row_shows s row col x y)
  unfolding sprite_row_loop
  sprite_row_loop_lem zero row col s h e =
      (refl, record { color = refl; background = refl; x = refl; y = refl }, λ x y l. ground arith)
  sprite_row_loop_lem (suc n) row col s h e =
      let c = byte (sp.content + (row * sp.y + col)) in
      let (some_char, no_line) = f.text (row * sp.y + col) (inside row col h (omega (arith, e))) in
      let s1 = printc_xy s (pos_x + col) (pos_y + row) c in
      let (done, ink, shows) = sprite_row_loop_lem n row (col + 1) s1 h (omega (arith, e)) in
      let ink1 = printc_xy-SameInk s (pos_x + col) (pos_y + row) c in
      rw (goes_on row col h (omega (arith, e)), sprite_row_loop)
        (
          done,
          SameInk-trans s s1 _ ink1 ink,
          λ x y l. shows x y l ∙ row_step row col s h (omega (arith, e)) x y l,
        )

-- ===== src/Console/Text.antt =====
-- The cursor of the console while text is written.
use kernel_old.Base.{
  ℕ, ◌+◌, ◌*◌, ◌%◌, ◌^◌, ◌≤◌, ◌<◌, ◌≡◌, refl, ◌∙◌, inl, inr, false, List, [], ◌∷◌, arith, ltb, leb,
  ◌==◌, Bool-cases,
}
use kernel_old.Console.{
  Mode, Screen, put_one, console_putchar, console_write, console_clear, video_putchar,
}
use kernel_old.Console.Drawing.{video_putchar-inside}

-- A screen of `cols` by `rows` whole characters, its sizes within 32 bits.
pub record IsMode (cols rows : ℕ) (mode : Mode) : Type 0 where
  pub wide : mode.width ≡ cols * 8
  pub high : mode.height ≡ rows * 16
  pub some_cols : 0 < cols
  pub some_rows : 0 < rows
  pub cols_bound : cols * 8 < 2 ^ 32
  pub rows_bound : rows * 16 < 2 ^ 32

-- Characters other than a tab and a backspace.
pub data Plain : List ℕ → Type 0 where
  end_of_text : Plain []
  plain : (c : ℕ) (cs : List ℕ) → (c == 9) ≡ false → (c == 8) ≡ false → Plain cs → Plain (c ∷ cs)

-- The cursor is at a character of the screen, and no pixel past the screen has changed.
abbrev pub Kept : (cols rows : ℕ) → Mode → (before after : Screen) → Type 0
Kept cols rows mode s s' =
    (s'.curs_x < cols)
    × (s'.curs_y < rows)
    × ((p : ℕ) → mode.height * mode.width ≤ p → s'.fb p ≡ s.fb p)

-- One character leaves the cursor in the screen but for its line, which may be the next one.
abbrev pub Moved : (cols rows : ℕ) → Mode → (before after : Screen) → Type 0
Moved cols rows mode s s' =
    (s'.curs_x < cols)
    × (s'.curs_y < rows + 1)
    × ((p : ℕ) → mode.height * mode.width ≤ p → s'.fb p ≡ s.fb p)

drawn :
    (glyph : ℕ → ℕ → ℕ) (cols rows pixel c : ℕ) (mode : Mode) (s : Screen)
    → IsMode cols rows mode
    → s.curs_x < cols
    → s.curs_y < rows
    → (p : ℕ) → mode.height * mode.width ≤ p
    → video_putchar glyph mode c (s.curs_x * 8 % 2 ^ 32) (s.curs_y * 16 % 2 ^ 32) pixel s.fb p
      ≡ s.fb p
drawn glyph cols rows pixel c mode s w inx iny p past =
    video_putchar-inside glyph mode c _ _ pixel s.fb p (omega (arith, w.wide, w.cols_bound, inx))
      (omega (arith, w.high, w.rows_bound, iny)) past

put_one-Moved :
    (glyph : ℕ → ℕ → ℕ) (cols rows pixel c : ℕ) (mode : Mode) (s : Screen)
    → IsMode cols rows mode
    → s.curs_x < cols
    → s.curs_y < rows
    → (c == 9) ≡ false
    → (c == 8) ≡ false
    → Moved cols rows mode s (put_one glyph mode pixel c s)
unfolding put_one
put_one-Moved glyph cols rows pixel c mode s w inx iny no_tab no_back =
    elim (Bool-cases (c == 10)) [
      | inl e ↦ rw (e, put_one) (w.some_cols, omega (arith, iny, w.rows_bound), λ p past. refl)
      | inr e ↦ elim (Bool-cases (leb mode.width ((s.curs_x + 1) % 2 ^ 32 * 8 % 2 ^ 32))) [
        | inl wraps ↦
            rw (e, no_tab, no_back, wraps, put_one)
              (
                w.some_cols,
                omega (arith, iny, w.rows_bound),
                drawn glyph cols rows pixel c mode s w inx iny,
              )
        | inr fits ↦
            rw (e, no_tab, no_back, fits, put_one)
              (
                ground (arith, inx, fits, w.wide, w.cols_bound),
                omega (arith, iny),
                drawn glyph cols rows pixel c mode s w inx iny,
              )
      ]
    ]

not_below : (p n : ℕ) → n ≤ p → ltb p n ≡ false
not_below p n le = ground (arith, le)

putchar-Kept :
    (glyph : ℕ → ℕ → ℕ) (cols rows pixel c : ℕ) (mode : Mode) (s : Screen)
    → IsMode cols rows mode
    → s.curs_x < cols
    → s.curs_y < rows
    → (c == 9) ≡ false
    → (c == 8) ≡ false
    → Kept cols rows mode s (console_putchar glyph mode pixel c s)
unfolding console_putchar console_clear
putchar-Kept glyph cols rows pixel c mode s w inx iny no_tab no_back =
    let (x, y, same) = put_one-Moved glyph cols rows pixel c mode s w inx iny no_tab no_back in
    elim (Bool-cases (leb mode.height ((put_one glyph mode pixel c s).curs_y * 16 % 2 ^ 32))) [
      | inl e ↦
          rw (e, console_putchar)
            (
              w.some_cols,
              w.some_rows,
              λ p past.
                  rw (not_below p (mode.width * mode.height) (omega (arith, past))) (same p past),
            )
      | inr e ↦ rw (e, console_putchar) (x, ground (arith, y, e, w.high, w.rows_bound), same)
    ]

-- Text without tabs and backspaces, on a screen of whole characters, from a cursor in the screen:
-- `console_write` leaves the cursor in the screen and changes no pixel past the framebuffer's last.
pub console_write-Kept :
    (glyph : ℕ → ℕ → ℕ) (cols rows pixel : ℕ) (mode : Mode) (text : List ℕ) (s : Screen)
    → IsMode cols rows mode
    → Plain text
    → s.curs_x < cols
    → s.curs_y < rows
    → Kept cols rows mode s (console_write glyph mode pixel text s)
unfolding console_write
console_write-Kept glyph cols rows pixel mode _ s w end_of_text inx iny = (inx, iny, λ p past. refl)
console_write-Kept glyph cols rows pixel mode _ s w (plain c cs no_tab no_back more) inx iny =
    let (x, y, same) = putchar-Kept glyph cols rows pixel c mode s w inx iny no_tab no_back in
    let (x', y', same') =
      console_write-Kept glyph cols rows pixel mode cs (console_putchar glyph mode pixel c s) w more
        x y in
    (x', y', λ p past. same' p past ∙ same p past)

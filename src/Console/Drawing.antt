-- ===== src/Console/Drawing.antt =====
-- Where a character is drawn: drivers/gfx/fb/fb.c `video_putchar`.
use kernel_old.Base.{
  ℕ, zero, suc, ◌+◌, ◌*◌, ◌/◌, ◌^◌, ◌≤◌, ◌<◌, bit_and, ◌≡◌, refl, ◌∙◌, ◌⊎◌, inr, arith, ◌==◌,
  if◌then◌else◌, update,
}
use native.Mathlib.Nat.{mul-le-mul_right}
use kernel_old.Console.{draw_row, draw_rows, video_putchar, Mode}

draw_row_outside :
    (face pixel start k n : ℕ) (fb : ℕ → ℕ) (p : ℕ)
    → (p < start) ⊎ (start + k + n ≤ p)
    → draw_row face pixel start k n fb p ≡ fb p
unfolding draw_row
draw_row_outside face pixel start k zero fb p out = refl
draw_row_outside face pixel start k (suc n) fb p out = ground (
  arith,
  out,
  draw_row_outside face pixel start (k + 1) n
      (if bit_and face (128 / 2 ^ k) == 0 then fb else update fb (start + k) pixel) p,
)

-- A row that is in the screen ends before the next one starts.
row_end : (a h x w : ℕ) → a < h → x + 8 ≤ w → x + a * w + 8 ≤ h * w
row_end a h x w lt le = omega (arith, lt, le, mul-le-mul_right w lt)

-- Nothing is drawn past the last row of a face that is in the screen.
draw_rows_past :
    (glyph : ℕ → ℕ) (pixel w x y j n h : ℕ) (fb : ℕ → ℕ) (p : ℕ)
    → x + 8 ≤ w
    → y + j + n ≤ h
    → h * w ≤ p
    → draw_rows glyph pixel w x y j n fb p ≡ fb p
unfolding draw_rows
draw_rows_past glyph pixel w x y j zero h fb p inside below past = refl
draw_rows_past glyph pixel w x y j (suc n) h fb p inside below past =
    draw_rows_past glyph pixel w x y (j + 1) n h _ p inside (omega (arith, below)) past
    ∙ draw_row_outside (glyph j) pixel (x + (y + j) * w) 0 8 fb p
        (inr (omega (arith, row_end (y + j) h x w (omega (arith, below)) inside, past)))

pub video_putchar-inside :
    (glyph : ℕ → ℕ → ℕ) (mode : Mode) (c x y pixel : ℕ) (fb : ℕ → ℕ) (p : ℕ)
    → x + 8 ≤ mode.width
    → y + 16 ≤ mode.height
    → mode.height * mode.width ≤ p
    → video_putchar glyph mode c x y pixel fb p ≡ fb p
unfolding video_putchar
video_putchar-inside glyph mode c x y pixel fb p inside below past =
    draw_rows_past (glyph c) pixel mode.width x y 0 16 mode.height fb p inside
      (omega (arith, below)) past

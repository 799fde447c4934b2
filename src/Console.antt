-- ===== src/Console.antt =====
-- The console of sys/console.c and the drawing of drivers/gfx/fb/fb.c on a framebuffer of 32-bit
-- pixels, by their index. `glyph c` gives the rows of a character's face in the font that start-up
-- loads; a character is its code, below 128.
mod Drawing
mod Text
mod Tests
use kernel_old.Base.{
  ℕ, zero, suc, ◌+◌, ◌-◌, ◌*◌, ◌/◌, ◌%◌, ◌^◌, ◌≤◌, ◌<◌, min, bit_and, bit_or, bit_xor, ◌≡◌, refl,
  sym, ap, ap₂, subst, ◌∙◌, ◌≢◌, ◌↔◌, ◌⊎◌, inl, inr, Bool, true, false, not, ◌&&◌, ◌||◌, Option,
  none, some, List, [], ◌∷◌, ◌++◌, map, arith, ltb, leb, ◌==◌, if◌then◌else◌, ltb→lt, lt→ltb,
  leb→le, ==_iff, ==_refl, Bool-cases, Option-cases, length, get_elem?, set, length-append,
  append_assoc, update_self, update,
}

-- `vid_mode_t`, without the address of the framebuffer; the depth is 32.
pub record Mode : Type 0 where
  pub width : ℕ
  pub height : ℕ

pub record Screen : Type 0 where
  pub curs_x : ℕ
  pub curs_y : ℕ
  pub fb : ℕ → ℕ

unfoldable pub rgbtopix : (r g b : ℕ) → ℕ
rgbtopix r g b = bit_or (bit_or (r * 2 ^ 16) (g * 2 ^ 8)) b

-- One row of a face, over the columns left: `face & (0b10000000 >> k)`.
unfoldable pub draw_row : (face pixel start k rounds : ℕ) → (ℕ → ℕ) → ℕ → ℕ
draw_row face pixel start k zero fb = fb
draw_row face pixel start k (suc n) fb =
    draw_row face pixel start (k + 1) n
      (if bit_and face (128 / 2 ^ k) == 0 then fb else update fb (start + k) pixel)

-- The rows left, each at its own start in the framebuffer.
unfoldable pub draw_rows : (glyph : ℕ → ℕ) → (pixel width x y j rounds : ℕ) → (ℕ → ℕ) → ℕ → ℕ
draw_rows glyph pixel width x y j zero fb = fb
draw_rows glyph pixel width x y j (suc n) fb =
    draw_rows glyph pixel width x y (j + 1) n
      (draw_row (glyph j) pixel (x + (y + j) * width) 0 8 fb)

unfoldable pub video_putchar : (glyph : ℕ → ℕ → ℕ) → Mode → (c x y pixel : ℕ) → (ℕ → ℕ) → ℕ → ℕ
video_putchar glyph mode c x y pixel fb = draw_rows (glyph c) pixel mode.width x y 0 16 fb

unfoldable pub video_putpix : Mode → (x y pixel : ℕ) → (ℕ → ℕ) → ℕ → ℕ
video_putpix mode x y pixel fb =
    if ltb mode.width x || ltb mode.height y then fb else update fb (x + y * mode.width) pixel

unfoldable pub console_clear : Mode → Screen → Screen
console_clear mode s = record {
  curs_x = 0;
  curs_y = 0;
  fb = λ p. if ltb p (mode.width * mode.height) then 0 else s.fb p;
}

-- What a character does to the cursor and the screen, before the test for the last line.
unfoldable pub put_one : (glyph : ℕ → ℕ → ℕ) → Mode → (pixel c : ℕ) → Screen → Screen
put_one glyph mode pixel c s =
    if c == 10
    then record s { curs_x = 0; curs_y = (s.curs_y + 1) % 2 ^ 32 }
    else if c == 9
    then record s { curs_x = (s.curs_x + 4) % 2 ^ 32 }
    else if c == 8
    then record s { curs_x = (s.curs_x + (2 ^ 32 - 1)) % 2 ^ 32 }
    else (let fb' =
          video_putchar glyph mode c (s.curs_x * 8 % 2 ^ 32) (s.curs_y * 16 % 2 ^ 32) pixel s.fb in
        let x' : ℕ = (s.curs_x + 1) % 2 ^ 32 in
        if leb mode.width (x' * 8 % 2 ^ 32)
        then record { curs_x = 0; curs_y = (s.curs_y + 1) % 2 ^ 32; fb = fb' }
        else record { curs_x = x'; curs_y = s.curs_y; fb = fb' })

unfoldable pub console_putchar : (glyph : ℕ → ℕ → ℕ) → Mode → (pixel c : ℕ) → Screen → Screen
console_putchar glyph mode pixel c s =
    let s' = put_one glyph mode pixel c s in
    if leb mode.height (s'.curs_y * 16 % 2 ^ 32) then console_clear mode s' else s'

unfoldable pub console_write : (glyph : ℕ → ℕ → ℕ) → Mode → (pixel : ℕ) → List ℕ → Screen → Screen
console_write glyph mode pixel [] s = s
console_write glyph mode pixel (c ∷ cs) s =
    console_write glyph mode pixel cs (console_putchar glyph mode pixel c s)

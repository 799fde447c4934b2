-- ===== src/Console/Tests.antt =====
-- Runs of the console, and its theorem at a concrete input.
use kernel_old.Base.{ℕ, ◌+◌, ◌*◌, ◌≡◌, refl, [], ◌∷◌, arith}
use kernel_old.Console.{
  Mode, Screen, console_putchar, console_write, put_one, video_putchar, video_putpix, draw_rows,
  draw_row, rgbtopix,
}
use kernel_old.Console.Text.{IsMode, plain, end_of_text, Kept, console_write-Kept}

abbrev vga : Mode
vga = record { width = 640; height = 480 }

abbrev home : Screen
home = record { curs_x = 0; curs_y = 0; fb = λ _. 0 }

-- A face of which each row has its left pixel.
abbrev bar : ℕ → ℕ → ℕ
bar _ _ = 128

white : rgbtopix 255 255 255 ≡ 16777215
unfolding rgbtopix
white = refl

draws-left : video_putchar bar vga 65 8 16 7 (λ _. 0) (8 + 16 * 640) ≡ 7
unfolding video_putchar draw_rows draw_row
draws-left = refl

-- A backspace at the left margin moves the cursor far to the right of the screen.
backspace-margin : (console_putchar bar vga 7 8 home).curs_x ≡ 4294967295
unfolding console_putchar put_one
backspace-margin = refl

-- A pixel in the line below the last one is stored, past the end of the framebuffer.
putpix-past : video_putpix vga 0 480 7 (λ _. 0) (640 * 480) ≡ 7
unfolding video_putpix
putpix-past = refl

vga-IsMode : IsMode 80 30 vga
vga-IsMode = record {
  wide = refl;
  high = refl;
  some_cols = omega arith;
  some_rows = omega arith;
  cols_bound = omega arith;
  rows_bound = omega arith;
}

console_write-Kept_example : Kept 80 30 vga home (console_write bar vga 7 (65 ∷ 10 ∷ []) home)
console_write-Kept_example =
    console_write-Kept bar 80 30 7 vga (65 ∷ 10 ∷ []) home vga-IsMode
      (plain 65 (10 ∷ []) refl refl (plain 10 [] refl refl end_of_text)) (omega arith) (omega arith)

-- ===== src/Console/Tty/Tests.antt =====
-- A screen of three by two pixels.
use good_os_framework.Base.{ℕ, ◌≡◌, ◌≢◌, ◌⊎◌, refl, replicate, done, ◌>>=◌, arith}
use good_os_framework.Console.Tty.{Tty, write_pixel, read_pixel, draw_pixel}
use good_os_framework.Console.Tty.Pixels.{InScreen, read_pixel-write_pixel, draw_pixel_lem}
use good_os_framework.Drivers.Display
use good_os_framework.Drivers.Display.{Display, bgr}

abbrev screen : Tty
screen = record { buffer = replicate 24 0; width = 3; height = 2 }

abbrev display : Display
display = record {
  buffer = replicate 24 0;
  width = 3;
  height = 2;
  stride = 3;
  bytes_per_pixel = 4;
  pixel_format = bgr;
}

read_pixel-write_pixel_example :
    (t' : Tty) × (write_pixel screen 2 1 (1, 2, 3, 4) ≡ done t')
    × (read_pixel t' 2 1 ≡ done (1, 2, 3, 4))
    × ((x' y' : ℕ)
        → InScreen screen x' y'
        → (x' ≢ 2) ⊎ (y' ≢ 1)
        → read_pixel t' x' y' ≡ read_pixel screen x' y')
read_pixel-write_pixel_example =
    read_pixel-write_pixel screen 2 1 (1, 2, 3, 4) (record { bytes = refl; small = omega arith })
      (omega arith, omega arith)

draw_pixel_lem_example :
    (draw_pixel screen 2 1 (9, 8, 7) >>= λ t'. done t'.buffer)
    ≡ (Display.draw_pixel display 2 1 (9, 8, 7) >>= λ d'. done d'.buffer)
draw_pixel_lem_example = draw_pixel_lem screen display 2 1 (9, 8, 7) refl refl refl refl

-- ===== src/Console/Tty.antt =====
-- src/console/tty.rs: the pixels of a terminal that is drawn in memory.
pub mod Pixels
mod Tests
use good_os_framework.Base.{
  ℕ, zero, suc, ◌+◌, ◌*◌, ◌/◌, ◌%◌, ◌^◌, ◌≡◌, Bool, true, false, ◌&&◌, List, [], ◌∷◌, length,
  get_or, ◌==◌, leb, if◌then◌else◌, Outcome, done, panics, ◌>>=◌, copy_from_slice,
}

pub record Tty : Type 0 where
  pub buffer : List ℕ
  pub width : ℕ
  pub height : ℕ

-- Red, green, blue and the fourth byte.
abbrev pub Pixel : Type 0
Pixel = ℕ × ℕ × ℕ × ℕ

abbrev pub position : Tty → ℕ → ℕ → ℕ
position t x y = (t.width * y % 2 ^ 64 + x) % 2 ^ 64 * 4 % 2 ^ 64

unfoldable pub write_pixel : Tty → ℕ → ℕ → Pixel → Outcome Tty
write_pixel t x y (r, g, b, a) =
    let pos = position t x y in
    copy_from_slice t.buffer pos ((pos + 4) % 2 ^ 64) (b ∷ g ∷ r ∷ a ∷ []) >>= λ buffer.
    done (record t { buffer = buffer })

unfoldable pub read_pixel : Tty → ℕ → ℕ → Outcome Pixel
read_pixel t x y =
    let pos = position t x y in
    let byte = λ (i : ℕ). get_or t.buffer (pos + i) 0 in
    if leb pos ((pos + 4) % 2 ^ 64) && leb ((pos + 4) % 2 ^ 64) (length t.buffer)
    then done (byte 2, byte 1, byte 0, byte 3)
    else panics

-- The terminal as a target of drawing.
unfoldable pub draw_pixel : Tty → ℕ → ℕ → ℕ × ℕ × ℕ → Outcome Tty
draw_pixel t x y (r, g, b) = write_pixel t x y (r, g, b, 0)

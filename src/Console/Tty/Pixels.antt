-- ===== src/Console/Tty/Pixels.antt =====
-- Pixels are read as they were written, and a terminal holds what a display would show.
use good_os_framework.Base.{
  ℕ, ◌+◌, ◌-◌, ◌*◌, ◌%◌, ◌^◌, ◌≤◌, ◌<◌, ◌≡◌, ◌≢◌, refl, sym, ap, ◌∙◌, ◌⊎◌, inl, inr, true, List, [],
  ◌∷◌, length, get_or, ◌==◌, leb-true, Outcome, done, panics, spins, ◌>>=◌, arith, put_all,
  copy_from_slice, length-put_all, get_or-put_all_outside, get_or-put_all_inside,
}
use good_os_framework.Console.Tty.{Tty, Pixel, position, write_pixel, read_pixel, draw_pixel}
use good_os_framework.Drivers.Display
use good_os_framework.Drivers.Display.{Display, PixelFormat, bgr, draw_color, by_format}
use native.Mathlib.Nat.{mul-le-mul_left}
use good_os_framework.Base.Modulo.{divmod_unique}

-- The buffer has four bytes for each pixel, and its length fits into a word.
pub record IsTty (t : Tty) : Type 0 where
  pub bytes : length t.buffer ≡ t.width * t.height * 4
  pub small : length t.buffer < 2 ^ 64

abbrev pub InScreen : Tty → ℕ → ℕ → Type 0
InScreen t x y = (x < t.width) × (y < t.height)

-- In the screen nothing wraps, and the pixel lies in the buffer.
position_lem :
    (t : Tty) (x y : ℕ)
    → IsTty t
    → InScreen t x y
    → (position t x y ≡ (t.width * y + x) * 4) × (position t x y + 4 ≤ length t.buffer)
position_lem t x y v (lx, ly) =
    let row : (t.width * (y + 1) ≤ t.width * t.height) = mul-le-mul_left t.width (omega arith) in
    let e : (position t x y ≡ (t.width * y + x) * 4) = omega (arith, v.bytes, v.small, row) in
    (e, omega (arith, e, v.bytes, row))

-- Different pixels lie at different places.
positions_differ :
    (w x y x' y' : ℕ) → x < w → x' < w → (x' ≢ x) ⊎ (y' ≢ y) → w * y + x ≢ w * y' + x'
positions_differ w x y x' y' lx lx' differ e =
    let (q, r) = divmod_unique (w * y + x) y x w (omega arith) lx in
    let (q', r') = divmod_unique (w * y + x) y' x' w (omega (arith, e)) lx' in
    elim differ [ inl ne ↦ ne (sym r' ∙ r) | inr ne ↦ ne (sym q' ∙ q) ]

-- The buffer after a pixel has been written in the screen.
abbrev written : Tty → ℕ → ℕ → Pixel → Tty
written t x y (r, g, b, a) = record t {
  buffer = put_all t.buffer (position t x y) (b ∷ g ∷ r ∷ a ∷ []);
}

write_pixel_lem :
    (t : Tty) (x y : ℕ) (p : Pixel)
    → IsTty t
    → InScreen t x y
    → write_pixel t x y p ≡ done (written t x y p)
unfolding write_pixel copy_from_slice
write_pixel_lem t x y (r, g, b, a) v s =
    let (e, fits) = position_lem t x y v s in
    let pos = position t x y in
    let past : ((pos + 4) % 2 ^ 64 ≡ pos + 4) = omega (arith, fits, v.small) in
    let four : ((4 == pos + 4 - pos) ≡ true) =
      ap (λ n. 4 == n) {x = pos + 4 - pos} {y = 4} (omega arith) in
    rw (past, leb-true pos (pos + 4) (omega arith), leb-true (pos + 4) (length t.buffer) fits, four)
      refl

read_pixel_lem :
    (t : Tty) (x y : ℕ)
    → IsTty t
    → InScreen t x y
    → read_pixel t x y
      ≡ done (
        get_or t.buffer (position t x y + 2) 0,
        get_or t.buffer (position t x y + 1) 0,
        get_or t.buffer (position t x y + 0) 0,
        get_or t.buffer (position t x y + 3) 0,
      )
unfolding read_pixel
read_pixel_lem t x y v s =
    let (e, fits) = position_lem t x y v s in
    let pos = position t x y in
    let past : ((pos + 4) % 2 ^ 64 ≡ pos + 4) = omega (arith, fits, v.small) in
    rw (past, leb-true pos (pos + 4) (omega arith), leb-true (pos + 4) (length t.buffer) fits) refl

-- A pixel that is written in the screen is read back, and every other pixel of the screen is read as
-- before. Neither call panics.
pub read_pixel-write_pixel :
    (t : Tty) (x y : ℕ) (p : Pixel)
    → IsTty t
    → InScreen t x y
    → (t' : Tty) × (write_pixel t x y p ≡ done t')
      × (read_pixel t' x y ≡ done p)
      × ((x' y' : ℕ)
          → InScreen t x' y'
          → (x' ≢ x) ⊎ (y' ≢ y)
          → read_pixel t' x' y' ≡ read_pixel t x' y')
read_pixel-write_pixel t x y (r, g, b, a) v s =
    let bytes = b ∷ g ∷ r ∷ a ∷ [] in
    let pos = position t x y in
    let t' = written t x y (r, g, b, a) in
    let (e, fits) = position_lem t x y v s in
    let same = length-put_all t.buffer pos bytes in
    let v' : IsTty t' = record { bytes = same ∙ v.bytes; small = omega (arith, same, v.small) } in
    (
      t',
      write_pixel_lem t x y (r, g, b, a) v s,
      read_pixel_lem t' x y v' s
          ∙ four (get_or-put_all_inside t.buffer pos bytes 2 0 fits (omega arith))
              (get_or-put_all_inside t.buffer pos bytes 1 0 fits (omega arith))
              (get_or-put_all_inside t.buffer pos bytes 0 0 fits (omega arith))
              (get_or-put_all_inside t.buffer pos bytes 3 0 fits (omega arith)),
      (λ x' y' s' differ.
          let (e', fits') = position_lem t x' y' v s' in
          let ne = positions_differ t.width x y x' y' s.0 s'.0 differ in
          let away : ((k : ℕ)
              → k < 4
              → get_or t'.buffer (position t x' y' + k) 0
                ≡ get_or t.buffer (position t x' y' + k) 0) =
            λ k lt.
              get_or-put_all_outside t.buffer pos bytes (position t x' y' + k) 0
                (omega (arith, e, e', ne)) in
          read_pixel_lem t' x' y' v' s'
          ∙ four (away 2 (omega arith)) (away 1 (omega arith)) (away 0 (omega arith))
              (away 3 (omega arith))
          ∙ sym (read_pixel_lem t x' y' v s')),
    )
  where
    four :
        {r r' g g' b b' a a' : ℕ}
        → r ≡ r'
        → g ≡ g'
        → b ≡ b'
        → a ≡ a'
        → ◌≡◌ {A = Outcome Pixel} (done (r, g, b, a)) (done (r', g', b', a'))
    four p q u w = rw (p, q, u, w) refl

-- Drawing on a terminal has the effect of drawing on a display whose rows have as many pixels (its stride) as the
-- terminal is wide, with four bytes for each
-- pixel in the order blue, green, red, on the same bytes: both panic, or both leave the same bytes.
pub draw_pixel_lem :
    (t : Tty) (d : Display) (x y : ℕ) (color : ℕ × ℕ × ℕ)
    → d.buffer ≡ t.buffer
    → d.stride ≡ t.width
    → d.bytes_per_pixel ≡ 4
    → d.pixel_format ≡ bgr
    → (draw_pixel t x y color >>= λ t'. done t'.buffer)
      ≡ (Display.draw_pixel d x y color >>= λ d'. done d'.buffer)
unfolding draw_pixel write_pixel Display.draw_pixel by_format draw_color
draw_pixel_lem t d x y (r, g, b) eb es ep ef =
    let turned : (y * t.width ≡ t.width * y) = omega arith in
    let pos = position t x y in
    rw (eb, es, ep, ef, turned)
      (buffers_lem (λ bytes. record t { buffer = bytes }) _
        (copy_from_slice t.buffer pos ((pos + 4) % 2 ^ 64) (b ∷ g ∷ r ∷ 0 ∷ [])) (λ bytes. refl)
        (λ bytes. refl))
  where
    buffers_lem :
        (f : List ℕ → Tty) (g : List ℕ → Display) (o : Outcome (List ℕ))
        → ((b : List ℕ) → (f b).buffer ≡ b)
        → ((b : List ℕ) → (g b).buffer ≡ b)
        → (o >>= (λ b. done (f b)) >>= λ t'. done t'.buffer)
          ≡ (o >>= (λ b. done (g b)) >>= λ d'. done d'.buffer)
    buffers_lem f g (done b) hf hg = ap done (hf b ∙ sym (hg b))
    buffers_lem f g panics hf hg = refl
    buffers_lem f g spins hf hg = refl

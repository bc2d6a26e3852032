-- ===== src/Drivers/Display.antt =====
-- src/drivers/display.rs: the frame buffer of the boot loader.
use good_os_framework.Base.{
  ℕ, zero, suc, ◌+◌, ◌*◌, ◌/◌, ◌%◌, ◌^◌, ◌&&◌, List, [], ◌∷◌, ◌==◌, if◌then◌else◌, Outcome, done,
  panics, ◌>>=◌, copy_from_slice,
}

pub data PixelFormat : Type 0 where
  rgb : PixelFormat
  bgr : PixelFormat
  u8 : PixelFormat
  unknown : PixelFormat

pub record Display : Type 0 where
  pub buffer : List ℕ
  pub width : ℕ
  pub height : ℕ
  pub stride : ℕ
  pub bytes_per_pixel : ℕ
  pub pixel_format : PixelFormat

-- What the boot loader says of the buffer.
pub record FrameBuffer : Type 0 where
  pub width : ℕ
  pub height : ℕ
  pub pitch : ℕ
  pub bpp : ℕ
  pub red_mask_shift : ℕ
  pub green_mask_shift : ℕ
  pub blue_mask_shift : ℕ

unfoldable pub pixel_format : FrameBuffer → PixelFormat
pixel_format f =
    if (f.red_mask_shift == 0x00) && (f.green_mask_shift == 0x08) && (f.blue_mask_shift == 0x10)
    then rgb
    else (if (f.red_mask_shift == 0x10)
          && (f.green_mask_shift == 0x08)
          && (f.blue_mask_shift == 0x00)
        then bgr
        else (if (f.red_mask_shift == 0x00)
              && (f.green_mask_shift == 0x00)
              && (f.blue_mask_shift == 0x00)
            then u8
            else unknown))

unfoldable pub buffer_size : FrameBuffer → ℕ
buffer_size f = f.pitch / 4 * f.height % 2 ^ 64 * (f.bpp / 8) % 2 ^ 64

-- The bytes are those at the address of the buffer.
unfoldable pub new : FrameBuffer → List ℕ → Display
new f bytes = record {
  buffer = bytes;
  width = f.width;
  height = f.height;
  stride = f.pitch / 4;
  bytes_per_pixel = f.bpp / 8;
  pixel_format = pixel_format f;
}

-- `[..n]`
abbrev pub prefix : ℕ → List ℕ → Outcome (List ℕ)
prefix zero xs = done []
prefix (suc n) [] = panics
prefix (suc n) (x ∷ xs) = prefix n xs >>= λ rest. done (x ∷ rest)

unfoldable pub draw_color : Display → ℕ → List ℕ → Outcome Display
draw_color d byte_offset color = do
  bytes ← prefix d.bytes_per_pixel color
  buffer ← copy_from_slice d.buffer byte_offset ((byte_offset + d.bytes_per_pixel) % 2 ^ 64) bytes
  done (record d { buffer = buffer })

-- The arms of the match on the format.
unfoldable pub by_format : PixelFormat → Display → ℕ → ℕ × ℕ × ℕ → Outcome Display
by_format rgb d byte_offset (r, g, b) = draw_color d byte_offset (r ∷ g ∷ b ∷ 0 ∷ [])
by_format bgr d byte_offset (r, g, b) = draw_color d byte_offset (b ∷ g ∷ r ∷ 0 ∷ [])
by_format u8 d byte_offset (r, g, b) = panics
by_format unknown d byte_offset (r, g, b) = done d

unfoldable pub draw_pixel : Display → ℕ → ℕ → ℕ × ℕ × ℕ → Outcome Display
draw_pixel d x y color =
    let byte_offset = (y * d.stride % 2 ^ 64 + x) % 2 ^ 64 * d.bytes_per_pixel % 2 ^ 64 in
    by_format d.pixel_format d byte_offset color

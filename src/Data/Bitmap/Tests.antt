-- ===== src/Data/Bitmap/Tests.antt =====
-- A bitmap of two bytes, and the bitmap's theorems at it.
use good_os_framework.Base.{◌≡◌, refl, true, [], ◌∷◌, done}
use good_os_framework.Data.Bitmap.{Bitmap, set}
use good_os_framework.Data.Bitmap.Bits.{u8_bits}

abbrev two_bytes : Bitmap
two_bytes = record { inner = 0b100 ∷ 0 ∷ [] }

abbrev with_nine : Bitmap
with_nine = record { inner = 0b100 ∷ 0b10 ∷ [] }

set_nine : set two_bytes 9 true ≡ done with_nine
unfolding set
set_nine = refl

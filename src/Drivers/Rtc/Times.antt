-- ===== src/Drivers/Rtc/Times.antt =====
-- What a clock shows is read back, in each of its formats.
use good_os_framework.Base.{
  ℕ, ◌+◌, ◌*◌, ◌/◌, ◌%◌, ◌^◌, ◌≤◌, ◌<◌, ◌≡◌, refl, ap, ◌∙◌, ◌⊎◌, Bool, true, false, not, leb, ◌==◌,
  if◌then◌else◌, arith,
}
use good_os_framework.Base.Bits.{and_low, and_shift, or_shift, or_comm}
use good_os_framework.Drivers.Rtc.{
  RtcDateTime, not_u8, rtc_bcd_to_bin, read_registers, to_binary, to_24_hour, new,
}
use Prim.Native.Nat.{bit_and}

-- A number in binary or with a decimal digit in each half of the byte.
unfoldable pub encode : Bool → ℕ → ℕ
encode true n = n
encode false n = n / 10 * 16 + n % 10

-- An hour of the day, or one of 12 hours with the highest bit for the afternoon.
unfoldable pub encode_hour : Bool → Bool → ℕ → ℕ
encode_hour true is_binary hour = encode is_binary hour
encode_hour false is_binary hour =
    encode is_binary (if hour % 12 == 0 then 12 else hour % 12) + (if leb 12 hour then 128 else 0)

abbrev digit : Bool → ℕ
digit b = if b then 1 else 0

-- The registers of a clock that shows a time.
pub record Shows (registers : ℕ → ℕ) (t : RtcDateTime) (is_24_hour is_binary : Bool) : Type 0 where
  pub second : registers 0x00 ≡ encode is_binary t.second
  pub minute : registers 0x02 ≡ encode is_binary t.minute
  pub hour : registers 0x04 ≡ encode_hour is_24_hour is_binary t.hour
  pub day : registers 0x07 ≡ encode is_binary t.day
  pub month : registers 0x08 ≡ encode is_binary t.month
  pub year : registers 0x09 ≡ encode is_binary t.year
  pub hours : registers 0x0b / 2 % 2 ≡ digit is_24_hour
  pub binary : registers 0x0b / 4 % 2 ≡ digit is_binary

pub record IsTime (t : RtcDateTime) : Type 0 where
  pub second : t.second < 60
  pub minute : t.minute < 60
  pub hour : t.hour < 24
  pub day : t.day < 32
  pub month : t.month < 13
  pub year : t.year < 100

and_bit : (k a : ℕ) → bit_and a (1 * 2 ^ k) ≡ a / 2 ^ k % 2 * 2 ^ k
and_bit k a = and_shift k a 1 ∙ ap (λ t. t * 2 ^ k) (and_low 1 (a / 2 ^ k))

bcd_lem : (x : ℕ) → x < 256 → rtc_bcd_to_bin x ≡ x / 128 * 128 + (x % 128 / 16 * 10 + x % 128 % 16)
unfolding rtc_bcd_to_bin
bcd_lem x lt =
    rw (and_bit 7 x, and_low 7 x)
      (or_comm _ (x / 128 % 2 * 128) ∙ or_shift 7 (x / 128 % 2) _ (omega arith) ∙ omega arith)

decode_lem : (n : ℕ) → n < 80 → rtc_bcd_to_bin (encode false n) ≡ n
unfolding encode
decode_lem n lt = bcd_lem (n / 10 * 16 + n % 10) (omega arith) ∙ omega arith

-- The 12 hours of a half of the day, and the bit of the afternoon.
abbrev half : ℕ → ℕ
half hour = if hour % 12 == 0 then 12 else hour % 12

abbrev afternoon : ℕ → ℕ
afternoon hour = if leb 12 hour then 128 else 0

half_small : (hour : ℕ) → half hour ≤ 12
half_small hour = ground arith

afternoon_two : (hour : ℕ) → (afternoon hour ≡ 0) ⊎ (afternoon hour ≡ 128)
afternoon_two hour = ground arith

half_lem :
    (hour : ℕ)
    → hour < 24
    → bit_and (half hour + afternoon hour) (not_u8 0x80) % 12
        + 12 * (if not (bit_and (half hour + afternoon hour) 0x80 == 0) then 1 else 0)
      ≡ hour
half_lem hour lt =
    rw (and_bit 7 (half hour + afternoon hour), and_low 7 (half hour + afternoon hour))
      (ground arith)

decode_half :
    (hour : ℕ)
    → rtc_bcd_to_bin (encode false (half hour) + afternoon hour) ≡ half hour + afternoon hour
unfolding encode
decode_half hour =
    bcd_lem (half hour / 10 * 16 + half hour % 10 + afternoon hour)
      (omega (arith, half_small hour, afternoon_two hour))
    ∙ omega (arith, half_small hour, afternoon_two hour)

-- The six fields of a clock in decimal digits, the hour as it is shown.
decode_all :
    (registers : ℕ → ℕ) (t : RtcDateTime) (hour : ℕ) (is_24_hour : Bool)
    → Shows registers t is_24_hour false
    → IsTime t
    → t.year < 80
    → rtc_bcd_to_bin (registers 0x04) ≡ hour
    → to_binary (read_registers registers) ≡ record t { hour = hour }
unfolding to_binary read_registers
decode_all registers t hour is_24_hour s v y h =
    rw
      (
        ap rtc_bcd_to_bin s.second ∙ decode_lem t.second (omega (arith, v.second)),
        ap rtc_bcd_to_bin s.minute ∙ decode_lem t.minute (omega (arith, v.minute)),
        h,
        ap rtc_bcd_to_bin s.day ∙ decode_lem t.day (omega (arith, v.day)),
        ap rtc_bcd_to_bin s.month ∙ decode_lem t.month (omega (arith, v.month)),
        ap rtc_bcd_to_bin s.year ∙ decode_lem t.year y,
      )
      refl

read_all :
    (registers : ℕ → ℕ) (t : RtcDateTime) (is_24_hour : Bool)
    → Shows registers t is_24_hour true
    → read_registers registers ≡ record t { hour = registers 0x04 }
unfolding read_registers encode
read_all registers t is_24_hour s = rw (s.second, s.minute, s.day, s.month, s.year) refl

-- The time that a clock shows is what the driver reads, whether the clock counts 12 or 24 hours and
-- whether it shows numbers in binary or in decimal digits, if each part of the time is in its range.
-- The year is below 100, in decimal digits below 80.
pub clock_lem :
    (registers : ℕ → ℕ) (t : RtcDateTime) (is_24_hour is_binary : Bool)
    → Shows registers t is_24_hour is_binary
    → IsTime t
    → t.year < (if is_binary then 100 else 80)
    → new registers ≡ t
unfolding new to_24_hour encode encode_hour
clock_lem registers t true true s v y =
    rw
      (
        and_bit 1 (registers 0x0b),
        and_bit 2 (registers 0x0b),
        s.hours,
        s.binary,
        read_all registers t true s,
        s.hour,
      )
      refl
clock_lem registers t true false s v y =
    rw
      (
        and_bit 1 (registers 0x0b),
        and_bit 2 (registers 0x0b),
        s.hours,
        s.binary,
        decode_all registers t t.hour true s v y
            (ap rtc_bcd_to_bin s.hour ∙ decode_lem t.hour (omega (arith, v.hour))),
      )
      refl
clock_lem registers t false true s v y =
    rw
      (
        and_bit 1 (registers 0x0b),
        and_bit 2 (registers 0x0b),
        s.hours,
        s.binary,
        read_all registers t false s,
        s.hour,
        half_lem t.hour v.hour,
      )
      refl
clock_lem registers t false false s v y =
    rw
      (
        and_bit 1 (registers 0x0b),
        and_bit 2 (registers 0x0b),
        s.hours,
        s.binary,
        decode_all registers t (half t.hour + afternoon t.hour) false s v y
            (ap rtc_bcd_to_bin s.hour ∙ decode_half t.hour),
        half_lem t.hour v.hour,
      )
      refl

late_year :
    (registers : ℕ → ℕ) (t : RtcDateTime) (is_24_hour : Bool)
    → Shows registers t is_24_hour false
    → 80 ≤ t.year
    → t.year < 100
    → rtc_bcd_to_bin (registers 0x09) ≡ t.year + 48
unfolding encode
late_year registers t is_24_hour s lo hi =
    ap rtc_bcd_to_bin s.year ∙ bcd_lem (t.year / 10 * 16 + t.year % 10) (omega arith) ∙ omega arith

-- In decimal digits, a year from 80 on is read as 48 years later.
pub clock_late_year :
    (registers : ℕ → ℕ) (t : RtcDateTime) (is_24_hour : Bool)
    → Shows registers t is_24_hour false
    → 80 ≤ t.year
    → t.year < 100
    → (new registers).year ≡ t.year + 48
unfolding new to_24_hour to_binary read_registers encode
clock_late_year registers t true s lo hi =
    rw (and_bit 1 (registers 0x0b), and_bit 2 (registers 0x0b), s.hours, s.binary)
      (late_year registers t true s lo hi)
clock_late_year registers t false s lo hi =
    rw (and_bit 1 (registers 0x0b), and_bit 2 (registers 0x0b), s.hours, s.binary)
      (late_year registers t false s lo hi)

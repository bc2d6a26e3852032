-- ===== src/Drivers/Rtc.antt =====
-- src/drivers/rtc.rs: the date and time of the clock. Its registers are a function of the index that is
-- written to the port; the conversion to a date of the `time` crate is not part of the model.
pub mod Times
mod Tests
use good_os_framework.Base.{
  ℕ, zero, suc, ◌+◌, ◌-◌, ◌*◌, ◌/◌, ◌%◌, ◌^◌, ◌≡◌, Bool, true, false, not, ◌==◌, if◌then◌else◌,
}
use Prim.Native.Nat.{bit_and, bit_or}

pub record RtcDateTime : Type 0 where
  pub second : ℕ
  pub minute : ℕ
  pub hour : ℕ
  pub day : ℕ
  pub month : ℕ
  pub year : ℕ

-- The complement of a byte.
abbrev pub not_u8 : ℕ → ℕ
not_u8 a = 255 - a

unfoldable pub rtc_bcd_to_bin : ℕ → ℕ
rtc_bcd_to_bin bcd =
    let msb = bit_and bcd 0x80 in
    let msb_masked = bit_and bcd (not_u8 0x80) in
    bit_or ((msb_masked / 16 * 10 % 2 ^ 8 + msb_masked % 16) % 2 ^ 8) msb

unfoldable pub read_registers : (ℕ → ℕ) → RtcDateTime
read_registers get_rtc_register = record {
  second = get_rtc_register 0x00;
  minute = get_rtc_register 0x02;
  hour = get_rtc_register 0x04;
  day = get_rtc_register 0x07;
  month = get_rtc_register 0x08;
  year = get_rtc_register 0x09;
}

unfoldable pub to_binary : RtcDateTime → RtcDateTime
to_binary t = record {
  second = rtc_bcd_to_bin t.second;
  minute = rtc_bcd_to_bin t.minute;
  hour = rtc_bcd_to_bin t.hour;
  day = rtc_bcd_to_bin t.day;
  month = rtc_bcd_to_bin t.month;
  year = rtc_bcd_to_bin t.year;
}

unfoldable pub to_24_hour : RtcDateTime → RtcDateTime
to_24_hour t =
    let is_pm = not (bit_and t.hour 0x80 == 0) in
    record t { hour = bit_and t.hour (not_u8 0x80) % 12 + 12 * (if is_pm then 1 else 0) }

unfoldable pub new : (ℕ → ℕ) → RtcDateTime
new get_rtc_register =
    let rtc_time = read_registers get_rtc_register in
    let format = get_rtc_register 0x0b in
    let is_24_hour = not (bit_and format 2 == 0) in
    let is_binary = not (bit_and format 4 == 0) in
    let binary = if is_binary then rtc_time else to_binary rtc_time in
    if is_24_hour then binary else to_24_hour binary

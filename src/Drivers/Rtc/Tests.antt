-- ===== src/Drivers/Rtc/Tests.antt =====
-- The afternoon of a day in 2024, and a day in 2081, on a clock of 12 hours and decimal digits.
use good_os_framework.Base.{ℕ, ◌≡◌, refl, false, ◌==◌, if◌then◌else◌, arith}
use good_os_framework.Drivers.Rtc.{RtcDateTime, new}
use good_os_framework.Drivers.Rtc.Times.{encode, encode_hour, clock_lem}

abbrev afternoon_of : ℕ → RtcDateTime
afternoon_of year = record {
  second = 59;
  minute = 30;
  hour = 15;
  day = 26;
  month = 11;
  year = year;
}

abbrev registers : ℕ → ℕ → ℕ
registers year idx =
    if idx == 0x00
    then 0x59
    else (if idx == 0x02
        then 0x30
        else (if idx == 0x04
            then 0x83
            else (if idx == 0x07
                then 0x26
                else (if idx == 0x08 then 0x11 else (if idx == 0x09 then year else 0)))))

clock_lem_example : new (registers 0x24) ≡ afternoon_of 24
unfolding encode encode_hour
clock_lem_example =
    clock_lem (registers 0x24) (afternoon_of 24) false false
      (record {
        second = refl;
        minute = refl;
        hour = refl;
        day = refl;
        month = refl;
        year = refl;
        hours = refl;
        binary = refl;
      })
      (record {
        second = omega arith;
        minute = omega arith;
        hour = omega arith;
        day = omega arith;
        month = omega arith;
        year = omega arith;
      })
      (omega arith)

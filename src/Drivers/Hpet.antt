-- ===== src/Drivers/Hpet.antt =====
-- src/drivers/hpet.rs: the timer. Its registers are read while the counter runs: `count k` is the value of
-- the counter when its k-th half is read.
pub mod Counter
mod Tests
use good_os_framework.Base.{
  ℕ, zero, suc, ◌+◌, ◌*◌, ◌/◌, ◌%◌, ◌^◌, ◌≡◌, Bool, true, false, ◌==◌, if◌then◌else◌, Outcome, done,
  spins, ◌>>=◌,
}
use Prim.Native.Nat.{bit_and, bit_or}

-- The capabilities at the base address and the configuration at 0x10.
pub record Hpet : Type 0 where
  pub capabilities : ℕ
  pub configuration : ℕ

unfoldable pub clock_speed : Hpet → ℕ
clock_speed h = h.capabilities / 2 ^ 32 % 2 ^ 32

unfoldable pub timers_count : Hpet → ℕ
timers_count h = (bit_and (h.capabilities / 2 ^ 8) 0b11111 + 1) % 2 ^ 32

unfoldable pub enable_counter : Hpet → Hpet
enable_counter h = record h { configuration = bit_or h.configuration 1 }

-- The loop on fuel; the counter is read for the `time`-th time first. The result has the time after.
unfoldable pub get_counter : (ℕ → ℕ) → ℕ → ℕ → Outcome (ℕ × ℕ)
get_counter count zero time = spins
get_counter count (suc fuel) time =
    let rest = get_counter count fuel (time + 3) in
    let high1 = count time / 2 ^ 32 in
    let low = count (time + 1) % 2 ^ 32 in
    let high2 = count (time + 2) / 2 ^ 32 in
    if high1 == high2 then done (bit_or (high1 * 2 ^ 32 % 2 ^ 64) low, time + 3) else rest

unfoldable pub get_time_elapsed : (ℕ → ℕ) → Hpet → ℕ → ℕ → Outcome (ℕ × ℕ)
get_time_elapsed count h fuel time = get_counter count fuel time >>= λ (counter, time').
    done (counter * (clock_speed h / 1000000) % 2 ^ 64, time')

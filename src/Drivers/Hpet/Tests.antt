-- ===== src/Drivers/Hpet/Tests.antt =====
-- A counter that passes 2 ^ 32 between the first two reads.
use good_os_framework.Base.{ℕ, ◌+◌, ◌*◌, ◌^◌, ◌-◌, ◌≤◌, ◌<◌, ◌≡◌, min, done, arith}
use good_os_framework.Drivers.Hpet.{Hpet, clock_speed, get_counter, get_time_elapsed}
use good_os_framework.Drivers.Hpet.Counter.{Runs, Seen, get_counter_lem, get_time_elapsed_lem}

abbrev count : ℕ → ℕ
count k = min (2 ^ 32 - 1 + k) (2 ^ 33)

count-Runs : Runs count
count-Runs = record {
  bounded = λ k. omega arith;
  grows = λ k. omega arith;
  slow = λ k. omega arith;
}

get_counter_lem_example : Seen count 0 (get_counter count 2 0)
get_counter_lem_example = get_counter_lem count 2 0 count-Runs (omega arith)

-- 69841279 femtoseconds for each tick.
abbrev timer : Hpet
timer = record { capabilities = 69841279 * 2 ^ 32; configuration = 0 }

get_time_elapsed_lem_example :
    (at : ℕ) × (stop : ℕ) × (elapsed : ℕ) × (get_time_elapsed count timer 2 0
      ≡ done (elapsed, stop))
    × (0 ≤ at)
    × (at < stop)
    × (elapsed * 1000000 ≤ count at * clock_speed timer)
    × (count at * clock_speed timer ≤ elapsed * 1000000 + count at * 999999)
unfolding clock_speed
get_time_elapsed_lem_example =
    get_time_elapsed_lem count timer 2 0 count-Runs (omega arith) (λ k. omega arith)

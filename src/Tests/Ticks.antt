-- ===== src/Tests/Ticks.antt =====
-- The clock of a thread at concrete inputs.
use mmorpg_server.Threading.LocalThread.Timing.{
  Readings, start_timing, time_ticks, time_ticks_lem, IsPaced, IsClock, durations, longest,
  time_tick,
}
use mmorpg_server.Base.{[], arith, List, ◌∷◌, length, ◌≡◌, ◌%◌, ◌^◌}

-- The second tick takes longer than an interval, so the third is due when it has ended.
abbrev rounds : List Readings
rounds =
    record { tick_start = 1000000; tick_end = 3000000; now = 3010000 }
    ∷ record { tick_start = 17000000; tick_end = 57000000; now = 57010000 }
    ∷ record { tick_start = 57020000; tick_end = 58000000; now = 58010000 }
    ∷ []

rounds-IsClock : IsClock (start_timing 1000000) rounds
unfolding time_tick
rounds-IsClock = (
  omega arith,
  omega arith,
  omega arith,
  omega arith,
  (
    omega arith,
    omega arith,
    omega arith,
    omega arith,
    (omega arith, omega arith, omega arith, omega arith, tt),
  ),
)

time_ticks_example :
    let c = time_ticks rounds (start_timing 1000000) in
    IsPaced 1000000 rounds
    × (c.tick_count ≡ length rounds % 2 ^ 64)
    × (c.total_tick_time_us ≡ durations rounds % 2 ^ 64)
    × (c.max_tick_time_us ≡ longest rounds)
time_ticks_example = time_ticks_lem rounds 1000000 rounds-IsClock

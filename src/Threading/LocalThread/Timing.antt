-- ===== src/Threading/LocalThread/Timing.antt =====
-- The clock of CLocalThread::ThreadFunc, its statistics of time, GetStats and ResetStats of
-- Source/Core/Threading/LocalThread.cpp. The clock counts nanoseconds and is
-- steady, so that a difference is not negative.
use mmorpg_server.Base.{
  [], ℕ, arith, List, ◌∷◌, ◌≤◌, ◌*◌, ◌+◌, add64, ◌<◌, ◌^◌, if◌then◌else◌, ltb, ◌-◌, max, ◌≡◌, ◌%◌,
  length, ◌/◌,
}
use mmorpg_server.Threading.LocalThread.{LocalThread}

-- `milliseconds(TICK_INTERVAL_MS)`
abbrev pub tick_interval : ℕ
tick_interval = 16 * 1000000

-- The atomics of the thread that hold times, and `next_tick_time`
pub record Timing : Type 0 where
  pub tick_count : ℕ
  pub total_tick_time_us : ℕ
  pub max_tick_time_us : ℕ
  pub next_tick_time : ℕ

-- What the clock says before and after `ProcessTick`, and when the next tick is due
pub record Readings : Type 0 where
  pub tick_start : ℕ
  pub tick_end : ℕ
  pub now : ℕ

-- `FStats`
pub record Stats : Type 0 where
  pub tick_count : ℕ
  pub total_tick_time_us : ℕ
  pub max_tick_time_us : ℕ
  pub packets_processed : ℕ
  pub packets_sent : ℕ

unfoldable pub get_stats : LocalThread → Timing → Stats
get_stats t c = record {
  tick_count = c.tick_count;
  total_tick_time_us = c.total_tick_time_us;
  max_tick_time_us = c.max_tick_time_us;
  packets_processed = t.packets_processed;
  packets_sent = t.packets_sent;
}

unfoldable pub reset_stats : LocalThread → Timing → LocalThread × Timing
reset_stats t c = (
  record t { packets_processed = 0; packets_sent = 0 },
  record c { tick_count = 0; total_tick_time_us = 0; max_tick_time_us = 0 },
)

-- A thread that starts at a time; the thread itself is all that writes its maximum, so its
-- `compare_exchange_weak` ends with the larger one.
abbrev pub start_timing : ℕ → Timing
start_timing now = record {
  tick_count = 0;
  total_tick_time_us = 0;
  max_tick_time_us = 0;
  next_tick_time = now;
}

-- The round of `ThreadFunc` after the tick, up to the sleep until `next_tick_time`
unfoldable pub time_tick : Readings → Timing → Timing
time_tick r c =
    let tick_time_us = (r.tick_end - r.tick_start) / 1000 in
    let next = c.next_tick_time + tick_interval in
    record {
      tick_count = add64 c.tick_count 1;
      total_tick_time_us = add64 c.total_tick_time_us tick_time_us;
      max_tick_time_us =
          if ltb c.max_tick_time_us tick_time_us then tick_time_us else c.max_tick_time_us;
      next_tick_time = if ltb r.now next then next else r.now;
    }

-- The rounds of a thread
unfoldable pub time_ticks : List Readings → Timing → Timing
time_ticks [] c = c
time_ticks (r ∷ rounds) c = time_ticks rounds (time_tick r c)

-- The clock does not go back, and `sleep_until` does not return before the time it is given.
abbrev pub IsClock : Timing → List Readings → Type 0
IsClock c [] = Unit
IsClock c (r ∷ rounds) =
    (c.next_tick_time ≤ r.tick_start)
    × (r.tick_start ≤ r.tick_end)
    × (r.tick_end ≤ r.now)
    × (r.now < 2 ^ 64)
    × IsClock (time_tick r c) rounds

-- Each tick starts at least an interval after the time of the tick before it.
abbrev pub IsPaced : ℕ → List Readings → Type 0
IsPaced start [] = Unit
IsPaced start (r ∷ rounds) = (start ≤ r.tick_start) × IsPaced (start + tick_interval) rounds

time_tick-next :
    (r : Readings) (c : Timing) → c.next_tick_time + tick_interval ≤ (time_tick r c).next_tick_time
unfolding time_tick
time_tick-next r c = ground arith

time_ticks-IsPaced :
    (rounds : List Readings) (start : ℕ) (c : Timing)
    → start ≤ c.next_tick_time
    → IsClock c rounds
    → IsPaced start rounds
time_ticks-IsPaced [] start c due clock = tt
time_ticks-IsPaced (r ∷ rounds) start c due (waited, _, _, _, rest) = (
  omega (arith, due, waited),
  time_ticks-IsPaced rounds (start + tick_interval) (time_tick r c)
      (omega (arith, due, time_tick-next r c)) rest,
)

abbrev pub duration : Readings → ℕ
duration r = (r.tick_end - r.tick_start) / 1000

abbrev pub durations : List Readings → ℕ
durations [] = 0
durations (r ∷ rounds) = duration r + durations rounds

abbrev pub longest : List Readings → ℕ
longest [] = 0
longest (r ∷ rounds) = max (duration r) (longest rounds)

time_tick_lem :
    (r : Readings) (c : Timing)
    → r.tick_start ≤ r.tick_end
    → r.tick_end < 2 ^ 64
    → ((time_tick r c).tick_count ≡ (c.tick_count + 1) % 2 ^ 64)
      × ((time_tick r c).total_tick_time_us ≡ (c.total_tick_time_us + duration r) % 2 ^ 64)
      × ((time_tick r c).max_tick_time_us ≡ max c.max_tick_time_us (duration r))
unfolding time_tick
time_tick_lem r c ordered small =
    (ground arith, ground (arith, ordered, small), ground (arith, ordered, small))

time_tick-bounds :
    (r : Readings) (c : Timing)
    → ((time_tick r c).tick_count < 2 ^ 64) × ((time_tick r c).total_tick_time_us < 2 ^ 64)
unfolding time_tick
time_tick-bounds r c = (ground arith, ground arith)

time_ticks_from :
    (rounds : List Readings) (c : Timing)
    → IsClock c rounds
    → c.tick_count < 2 ^ 64
    → c.total_tick_time_us < 2 ^ 64
    → ((time_ticks rounds c).tick_count ≡ (c.tick_count + length rounds) % 2 ^ 64)
      × ((time_ticks rounds c).total_tick_time_us
          ≡ (c.total_tick_time_us + durations rounds) % 2 ^ 64)
      × ((time_ticks rounds c).max_tick_time_us ≡ max c.max_tick_time_us (longest rounds))
unfolding time_ticks
time_ticks_from [] c clock few short = (omega (arith, few), omega (arith, short), omega arith)
time_ticks_from (r ∷ rounds) c (_, ordered, in_order, small, rest) few short =
    let (count, total, most) = time_tick_lem r c ordered (omega (arith, in_order, small)) in
    let bounds = time_tick-bounds r c in
    let (count', total', most') = time_ticks_from rounds (time_tick r c) rest bounds.0 bounds.1 in
    (omega (arith, count, count'), omega (arith, total, total'), omega (arith, most, most'))

-- On a clock that stays below 2 ^ 64 and does not go back, with a `sleep_until` that is not
-- early, the tick with the number `i`, from 0, starts no earlier than `i` intervals of 16 ms
-- after the thread. The statistics are the number of ticks, modulo 2 ^ 64, the time that they
-- took in all, modulo 2 ^ 64, and the longest of them.
pub time_ticks_lem :
    (rounds : List Readings) (start : ℕ)
    → IsClock (start_timing start) rounds
    → let c = time_ticks rounds (start_timing start) in
      IsPaced start rounds
      × (c.tick_count ≡ length rounds % 2 ^ 64)
      × (c.total_tick_time_us ≡ durations rounds % 2 ^ 64)
      × (c.max_tick_time_us ≡ longest rounds)
time_ticks_lem rounds start clock =
    let (count, total, most) =
      time_ticks_from rounds (start_timing start) clock (omega arith) (omega arith) in
    (
      time_ticks-IsPaced rounds start (start_timing start) (omega arith) clock,
      omega (arith, count),
      omega (arith, total),
      omega (arith, most),
    )

-- ===== src/Xstat/Node/Sleep.antt =====
-- How long a round sleeps.
use xstats.Base.{ℕ, ◌-◌, ◌/◌, ◌^◌, ◌≤◌, ◌<◌, ◌≡◌, arith, u32, sub64}
use xstats.Xstat.Node.{time_left, sleep_time}

time_left_lem :
    (period spent : ℕ)
    → period < 10000
    → spent < 2 ^ 31
    → time_left period spent ≡ period - spent - 1
unfolding time_left
time_left_lem period spent p s = ground arith

-- Where less than 2 ^ 31 ms passed since the sample's time stamp, the thread sleeps for what is left
-- of the period, in whole milliseconds, less one; not at all if nothing is left.
pub sleep_time_lem :
    (period after_roll started : ℕ)
    → period < 10000
    → sub64 after_roll started / 1000000 < 2 ^ 31
    → sleep_time period after_roll started ≡ period - sub64 after_roll started / 1000000 - 1
unfolding sleep_time
sleep_time_lem period after_roll started p h =
    omega (arith, time_left_lem period (u32 (sub64 after_roll started / 1000000)) p (omega arith))

-- Whatever the clock did, a round sleeps for at most the period.
pub sleep_time-le : (period after_roll started : ℕ) → sleep_time period after_roll started ≤ period
unfolding sleep_time time_left
sleep_time-le period after_roll started = ground arith

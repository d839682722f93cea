-- ===== src/Xstat/Clock.antt =====
-- xstat/base_cnt.c: the time of a sample and the interval since the one before.
pub mod Laws
use xstats.Base.{ℕ, ◌+◌, ◌-◌, List, u64, sub64, get_elem?, set}
use xstats.Kernel.{Result, ok, or_fault, ◌>>=◌}
use xstats.Xstat.World.{Hardware, Ctx, word, as_word}

-- The monotonic clock in nanoseconds, as a `uint64_t`.
unfoldable pub get_time : Hardware → ℕ
get_time hw = u64 hw.time

-- Slot `i` takes the last sample's time and the next slot this one's.
unfoldable pub ts_restart : Hardware → ℕ → ℕ → List Ctx → ℕ × List Ctx
ts_restart hw i last ctxs =
    let now = get_time hw in (now, set (set ctxs i (word last)) (i + 1) (word now))

unfoldable pub intv_restart : ℕ → List Ctx → Result ℕ
intv_restart i ctxs = do
  slot ← or_fault (get_elem? ctxs i)
  now ← or_fault (as_word slot)
  before ← or_fault (get_elem? ctxs (i - 1))
  prev ← or_fault (as_word before)
  ok (sub64 now prev)

-- ===== src/Xstat/Clock/Laws.antt =====
-- The pair of counters ts and intv.
use xstats.Base.{ℕ, ◌<◌, ◌^◌, ◌≡◌, refl, List, ◌∷◌, arith, sub64}
use xstats.Kernel.{ok}
use xstats.Xstat.World.{Hardware, Ctx}
use xstats.Xstat.Clock.{get_time, ts_restart, intv_restart}

pub get_time-lt : (hw : Hardware) → get_time hw < 2 ^ 64
unfolding get_time
get_time-lt hw = omega arith

-- Run right after ts, in the next slot, intv returns the time since the last sample.
pub intv_restart-ts_restart :
    (hw : Hardware) (last : ℕ) (a b : Ctx) (rest : List Ctx)
    → intv_restart 1 (ts_restart hw 0 last (a ∷ b ∷ rest)).1 ≡ ok (sub64 (get_time hw) last)
unfolding intv_restart ts_restart
intv_restart-ts_restart hw last a b rest = refl

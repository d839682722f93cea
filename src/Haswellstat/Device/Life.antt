-- ===== src/Haswellstat/Device/Life.antt =====
-- The life of haswellstat: loaded, used in any way, unloaded.
use mathlib.Core.List.Sublist
use xstats.Base.{List}
use xstats.Base.Text.{Text}
use xstats.Device
use xstats.Haswellstat.Thread

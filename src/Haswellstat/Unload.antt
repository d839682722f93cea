-- ===== src/Haswellstat/Unload.antt =====
-- micstat_exit of haswellstat.
use xstats.Base.{ℕ, Bool, List}
use xstats.Kernel.{Result}
use xstats.Sbstat.{Counter}
use xstats.Sbstat.Control.{Module}
use xstats.Sbstat.Unload

abbrev pub micstat_exit :
    (returned : Bool) → Module → List Counter → Result (List ℕ × (List Counter × List ℕ))
micstat_exit = Unload.micstat_exit

-- ===== src/Micstat/Buffer.antt =====
-- The ring of micstat: roll_buffer, which gives up the oldest row when it is full, and the attribute
-- `clear`.
use xstats.Base.{
  Bool, true, false, ℕ, ◌≡◌, refl, ap, ◌∙◌, ◌⊎◌, inl, inr, ◌&&◌, ◌||◌, List, [], ◌∷◌, Option, none,
  some, arith, length, length-append, sub64, leb, if◌then◌else◌, Bool-cases,
}
use xstats.Base.Int.{ℤ, negsuc}
use xstats.Base.Text.{Text, codes}
use xstats.Kernel.{Result, ok, ◌>>=◌}
use xstats.Ring
use xstats.Ring.{Ring}
use xstats.Ring.Refine.{IsValid, contents, append, push_refines}
use xstats.Ring.Clear.{clear, clear_refines}
use xstats.Xstat.Control.{starts_with}
use xstats.Sbstat.{Cell}
use xstats.Micstat.Smc.{Bus}
use xstats.Micstat.Freq.{PllData}
use xstats.Micstat.Counters.{
  ncnt, nbuf, Counter, Device, Readings, table, restart_counters, restart_counters_lem, counts,
  counted, length-counts, length-counted,
}

-- The statics that a round changes.
pub record Sampler : Type 0 where
  pub device : Device
  pub counters : List Counter
  pub ring : Ring

-- The return value is -1 although the row is stored; no caller looks at it.
pub roll_buffer : (ℕ → ℕ → ℕ → ℕ) → Bus → PllData → Readings → Sampler → Result (ℤ × Sampler)
roll_buffer scale smc pll now s = do
  let (row, after) = restart_counters scale smc pll now s.device s.counters
  ring ← Ring.push ncnt nbuf s.ring row
  ok (negsuc 0, record { device = after.0; counters = after.1; ring = ring })

-- The text written begins with `on` or with `1`.
abbrev pub asks_clear : Text → ℕ → Bool
asks_clear buf count =
    (leb 2 count && starts_with buf (codes "on")) || (leb 1 count && starts_with buf (codes "1"))

-- `none` stands for the end of the function without a return statement.
pub micstat_store_clear : Text → ℕ → Ring → Option ℕ × Ring
micstat_store_clear buf count ring =
    if asks_clear buf count then (some count, clear ring) else (none, ring)

abbrev pub samples : Ring → List (List ℕ)
samples r = contents ncnt nbuf r

-- The sampler of a module that is loaded: its table has the shape of `counters`.
pub record IsSampler (s : Sampler) : Type 0 where
  pub events : List (ℕ × List Cell)
  pub shape : s.counters ≡ table events
  pub width : length events ≡ 15
  pub in_order : IsValid ncnt nbuf s.ring

-- A round of a sampler whose ring is in order stores the row of this round's values at the end; where
-- 128 rows are held, the oldest is given up. The next round measures its interval from this one, and
-- the counters are those after this round.
pub micstat_roll_buffer-IsSampler :
    (scale : ℕ → ℕ → ℕ → ℕ) (smc : Bus) (pll : PllData) (now : Readings) (s : Sampler)
    → IsSampler s
    → (s' : Sampler) × (roll_buffer scale smc pll now s ≡ ok (negsuc 0, s'))
      × IsSampler s'
      × (samples s'.ring
          ≡ append nbuf (samples s.ring) (restart_counters scale smc pll now s.device s.counters).0)
      × (s'.device.trace.st_current ≡ now.started)
      × (s'.counters ≡ (restart_counters scale smc pll now s.device s.counters).1.1)
unfolding roll_buffer
micstat_roll_buffer-IsSampler scale smc pll now s v =
    let out = restart_counters scale smc pll now s.device s.counters in
    let values =
      ap (restart_counters scale smc pll now s.device) v.shape
      ∙ restart_counters_lem scale smc pll now s.device v.events in
    let fits : length out.0 ≡ ncnt =
      ap (λ r. length r.0) values
      ∙ omega (
        arith,
        length-append (counts scale smc pll now v.events) (sub64 now.ended now.started ∷ []),
        length-counts scale smc pll now v.events,
        v.width,
      ) in
    let (ring, run, valid, log) = push_refines ncnt nbuf s.ring out.0 v.in_order fits in
    (
      record { device = out.1.0; counters = out.1.1; ring = ring },
      rw run refl,
      record {
        events = counted scale smc pll now v.events;
        shape = ap (λ r. r.1.1) values;
        width = length-counted scale smc pll now v.events ∙ v.width;
        in_order = valid;
      },
      log,
      ap (λ r. r.1.0.trace.st_current) values,
      refl,
    )

-- A write to `clear` that begins with `on` or `1` empties a ring in order and returns its count; any
-- other write leaves it, without a return value. The ring stays in order.
pub micstat_store_clear_lem :
    (buf : Text) (count : ℕ) (ring : Ring)
    → IsValid ncnt nbuf ring
    → let (ret, ring') = micstat_store_clear buf count ring in
      IsValid ncnt nbuf ring'
      × (((asks_clear buf count ≡ true) × (ret ≡ some count) × (samples ring' ≡ []))
          ⊎ ((asks_clear buf count ≡ false) × (ret ≡ none) × (ring' ≡ ring)))
unfolding micstat_store_clear
micstat_store_clear_lem buf count ring v = elim (Bool-cases (asks_clear buf count)) [
  | inl word ↦
      let (valid, empty) = clear_refines ncnt ring v in rw word (valid, inl (refl, refl, empty))
  | inr other ↦ rw other (v, inr (refl, refl, refl))
]

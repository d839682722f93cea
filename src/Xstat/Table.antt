-- ===== src/Xstat/Table.antt =====
-- The table `node_counters` of xstat/xstat.c, and what its function pointers lead to.
use xstats.Base.{ℕ, Bool, List, [], ◌∷◌, ◌++◌, Option, get_elem?, set}
use xstats.Base.Text.{Text, codes, show_ℕ}
use xstats.Kernel.{Result, ok, fault, or_fault, ◌>>=◌}
use xstats.Kernel.Printf.{Scnprintf}
use xstats.Xstat.World.{
  Hardware, PerfEventConfig, Group, group_a, group_b, misc, IpmiSensors, group, set_group, Ctx,
  word, perf, ipmi, freed, as_word, Effect,
}
use xstats.Xstat.Clock.{ts_restart, intv_restart}
use xstats.Xstat.Msr.{temp_restart, temp_scnprintf, energy_restart, eunit_restart, perflmt_restart}
use xstats.Xstat.Perf.{perf_init, perf_exit, perf_restart}
use xstats.Xstat.Ipmi

-- The hardware events, with PERF_RAW_CONFIG's codes.
pub data Event : Type 0 where
  cyc inst llcref llcmiss br brmiss l2lin : Event

abbrev pub raw_config : ℕ → PerfEventConfig
raw_config code = record { config = code }

pub event_config : Event → PerfEventConfig
event_config cyc = raw_config 0x003c
event_config inst = raw_config 0x00c0
event_config llcref = raw_config 0x4f2e
event_config llcmiss = raw_config 0x412e
event_config br = raw_config 0x00c4
event_config brmiss = raw_config 0x00c5
event_config l2lin = raw_config 0x07f4

pub data Counter : Type 0 where
  ts intv temp energy eunit perflmt : Counter
  event : Event → Counter
  sensors : Group → Counter

abbrev pub node_counters : List Counter
node_counters =
    ts
    ∷ intv
    ∷ event cyc
    ∷ event inst
    ∷ event llcref
    ∷ event llcmiss
    ∷ event br
    ∷ event brmiss
    ∷ event l2lin
    ∷ temp
    ∷ energy
    ∷ eunit
    ∷ perflmt
    ∷ sensors group_a
    ∷ sensors group_b
    ∷ sensors misc
    ∷ []

abbrev pub event_name : Event → Text
event_name cyc = codes "cyc"
event_name inst = codes "inst"
event_name llcref = codes "llcref"
event_name llcmiss = codes "llcmiss"
event_name br = codes "br"
event_name brmiss = codes "brmiss"
event_name l2lin = codes "l2lin"

abbrev pub name : Counter → Text
name ts = codes "ts"
name intv = codes "intv"
name temp = codes "temp"
name energy = codes "energy"
name eunit = codes "eunit"
name perflmt = codes "perflmt"
name (event e) = event_name e
name (sensors g) = codes "ipmi"

-- What the calls of `init` meet: the n-th kzalloc, and the events that the kernel hands out.
pub record Setup : Type 0 where
  pub allocated : Bool
  pub create : PerfEventConfig → ℕ → Option ℕ

-- A null `init` leaves the slot alone; the return value is ignored by the caller.
unfoldable pub init : Setup → Counter → List ℕ → Ctx → Result Ctx
init setup (event e) mask slot = perf_init setup.allocated setup.create (event_config e) mask
init setup (sensors g) mask slot = ok (Ipmi.cnt_init g)
init setup ts mask slot = ok slot
init setup _ mask slot = ok slot

-- `exit` of an event gives its memory back and leaves the pointer as it was.
unfoldable pub exit_event : Ctx → Result (Ctx × List Effect)
exit_event (perf ctx) = ok (freed, perf_exit ctx)
exit_event (word n) = fault
exit_event _ = fault

unfoldable pub exit : Counter → Ctx → Result (Ctx × List Effect)
exit (event e) slot = exit_event slot
exit ts slot = ok (slot, [])
exit _ slot = ok (slot, [])

-- What a round changes, as it goes through the counters.
pub record World : Type 0 where
  pub ctxs : List Ctx
  pub groups : IpmiSensors
  pub effects : List Effect

module _ (scale : ℕ → ℕ → ℕ → ℕ) (hw : Hardware) where
  restart_event : Ctx → Result (ℕ × Ctx)
  restart_event (perf ctx) = let (total, ctx') = perf_restart scale hw ctx in ok (total, perf ctx')
  restart_event (word n) = fault
  restart_event _ = fault

  restart_sensors : Ctx → World → Result (ℕ × World)
  restart_sensors (ipmi g) w =
      let (value, (ctx', sent)) = Ipmi.restart (group g w.groups) in
      ok (value, record w { groups = set_group g ctx' w.groups; effects = w.effects ++ sent })
  restart_sensors (word n) w = fault
  restart_sensors _ w = fault

  -- `node_counters[i]->restart(&node->ctxs[i], last)`
  unfoldable pub restart : Counter → ℕ → ℕ → World → Result (ℕ × World)
  unfolding restart_event restart_sensors
  restart ts i last w =
      let (value, ctxs') = ts_restart hw i last w.ctxs in ok (value, record w { ctxs = ctxs' })
  restart intv i last w = do value ← intv_restart i w.ctxs; ok (value, w)
  restart temp i last w = ok (temp_restart hw, w)
  restart energy i last w = do
    slot ← or_fault (get_elem? w.ctxs i)
    laste ← or_fault (as_word slot)
    let (value, slot') = energy_restart hw laste
    ok (value, record w { ctxs = set w.ctxs i slot' })
  restart eunit i last w = ok (eunit_restart hw, w)
  restart perflmt i last w =
      let (value, written) = perflmt_restart hw in
      ok (value, record w { effects = w.effects ++ (written ∷ []) })
  restart (event e) i last w = do
    slot ← or_fault (get_elem? w.ctxs i)
    (value, slot') ← restart_event slot
    ok (value, record w { ctxs = set w.ctxs i slot' })
  restart (sensors g) i last w = do slot ← or_fault (get_elem? w.ctxs i); restart_sensors slot w

-- "\"%s\":%llu"
abbrev pub plain_text : Counter → ℕ → Text
plain_text c value = codes "\"" ++ (name c ++ (codes "\":" ++ show_ℕ value))

pub print_sensors : Scnprintf → IpmiSensors → ℕ → ℕ → Ctx → Result Text
print_sensors printf groups limit value (ipmi g) =
    Ipmi.scnprintf printf (group g groups) limit value
print_sensors printf groups limit value (word n) = fault
print_sensors printf groups limit value _ = fault

-- The counter's own scnprintf, or else the common format: what is stored at `ptr`.
unfoldable pub print : Scnprintf → IpmiSensors → Counter → Ctx → ℕ → ℕ → Result Text
unfolding print_sensors
print printf groups temp slot limit value = temp_scnprintf printf limit value
print printf groups (sensors g) slot limit value = print_sensors printf groups limit value slot
print printf groups ts slot limit value = printf.write limit (plain_text ts value)
print printf groups c slot limit value = printf.write limit (plain_text c value)

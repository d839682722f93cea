-- ===== src/Xstat/Tests.antt =====
-- Data for the tests of the module under xstat/.
mod Counters
mod Sensors
mod Sampling
mod Reading
mod Life
mod Events
mod Work
use xstats.Base.{
  ℕ, ◌+◌, ◌-◌, ◌*◌, List, [], ◌∷◌, Option, some, none, true, false, take, replicate, refl, arith,
  length-replicate,
}
use xstats.Kernel.{ok}
use xstats.Kernel.Printf.{Scnprintf}
use xstats.Ring.{Ring}
use xstats.Ring.Refine.{IsValid}
use xstats.Xstat.World.{
  Register, package_therm_status, temperature_target, pkg_energy_status, rapl_power_unit,
  core_perf_limit_reasons, Hardware, PerfValue, PerfEventConfig, IpmiSensors, Ctx, null,
}
use xstats.Xstat.Ipmi.Sensors.{ipmi_sensors}
use xstats.Xstat.Node.{Node, ncnt, nbuf, Round}
use xstats.Xstat.Node.Slots.{Slots, slots_of}
use xstats.Xstat.Node.Lifecycle.{fresh_slots, Idle, idle_slots, IsIdle}
use xstats.Xstat.Node.Roll.{IsSampling}
use xstats.Xstat.Registry.{Site}
use xstats.Xstat.Registry.Nodes.{IsServed}
use xstats.Xstat.Node.Words.{HasRegisters}

-- As much as fits.
abbrev pub plain : Scnprintf
plain = record { write = λ limit s. ok (take (limit - 1) s); write_lem = λ limit s. refl }

-- Events that run whenever they are enabled.
abbrev pub exact_scale : ℕ → ℕ → ℕ → ℕ
exact_scale = λ count enabled running. count

abbrev pub registers : Register → ℕ
registers package_therm_status = 0x88300000
registers temperature_target = 0x00640a00
registers pkg_energy_status = 0x00000010
registers rapl_power_unit = 0x000a0e03
registers core_perf_limit_reasons = 0x00150004

abbrev pub count_at : ℕ → PerfValue
count_at n = record { total = n; enabled = n; running = n }

abbrev pub hw : Hardware
hw = record { time = 5000000; msr = registers; perf_value = λ event. count_at (event + 7) }

abbrev pub make_event : PerfEventConfig → ℕ → Option ℕ
make_event cfg cpu = some (cfg.config + cpu)

abbrev pub make_thread : ℕ → Option ℕ
make_thread i = some (i + 100)

abbrev pub no_thread : ℕ → Option ℕ
no_thread i = none

-- One sample held.
abbrev pub ring : Ring
ring = record {
  buffer = replicate (ncnt * nbuf) 9;
  buffer_base = 255;
  buffer_next = 0;
  buffer_size = 1;
}

pub ring-IsValid : IsValid ncnt nbuf ring
ring-IsValid = record {
  storage = length-replicate {A = ℕ} 4096 9;
  base_in = omega arith;
  size_in = omega arith;
  next_at = refl;
}

abbrev pub slots_before : Idle
slots_before = record {
  before = 1;
  time = 2;
  joules = 3;
  slot_cyc = Ctx.freed;
  slot_inst = Ctx.freed;
  slot_llcref = Ctx.freed;
  slot_llcmiss = Ctx.freed;
  slot_br = Ctx.freed;
  slot_brmiss = Ctx.freed;
  slot_l2lin = Ctx.freed;
  slot_a = null;
  slot_b = null;
  slot_misc = null;
}

abbrev pub idle_node : Node
idle_node = record {
  id = 1;
  task = none;
  mask = 4 ∷ 5 ∷ [];
  ctxs = idle_slots slots_before;
  working_buf = replicate ncnt 8;
  ring = ring;
}

pub idle_node-IsIdle : IsIdle idle_node
idle_node-IsIdle = record {
  idle = slots_before;
  slots_are = refl;
  working = refl;
  in_order = ring-IsValid;
}

abbrev pub slots : Slots
slots = fresh_slots make_event (4 ∷ 5 ∷ []) slots_before

abbrev pub node : Node
node = record idle_node { ctxs = slots_of slots }

pub node-IsSampling : IsSampling node slots
node-IsSampling = record { slots_are = refl; working = refl; in_order = ring-IsValid }

abbrev pub round : Round
round = record {
  meanwhile = λ groups. groups;
  hw = hw;
  after_roll = 5200000;
  period = 1000;
  stop_first = false;
  stop_second = false;
}

abbrev pub last_round : Round
last_round = record round { stop_second = true }

-- The registers of `hw` have 64 bits.
pub registers_small : HasRegisters hw
registers_small package_therm_status = omega arith
registers_small temperature_target = omega arith
registers_small pkg_energy_status = omega arith
registers_small rapl_power_unit = omega arith
registers_small core_perf_limit_reasons = omega arith

abbrev pub site : Site
site = record {
  online = true;
  cpus = 4 ∷ 5 ∷ [];
  node_allocated = true;
  ctxs_allocated = true;
  buffer_allocated = true;
  working_allocated = true;
  stat_err = 0;
  last_err = 0;
  reset_err = 0;
}

pub site-IsServed : IsServed site
site-IsServed = record {
  online = refl;
  node_allocated = refl;
  ctxs_allocated = refl;
  buffer_allocated = refl;
  working_allocated = refl;
}

-- ===== src/Xstat/World.antt =====
-- xstat/xstat.h and the data that the counters of xstat/*_cnt.c keep.
-- A `void *` slot of `node->ctxs` holds a number cast to a pointer, or a pointer to what `init`
-- allocated or found. A null pointer is the number 0.
use xstats.Base.{ℕ, List, Option, none, some}
use xstats.Base.Int.{ℤ}
use xstats.Base.Text.{Text}

-- The model-specific registers that the counters read.
pub data Register : Type 0 where
  package_therm_status temperature_target pkg_energy_status : Register
  rapl_power_unit core_perf_limit_reasons : Register

-- What `perf_event_read_value` returns: the count, and the times enabled and running.
pub record PerfValue : Type 0 where
  pub total : ℕ
  pub enabled : ℕ
  pub running : ℕ

-- What one round of sampling reads from outside. Events are named by their handles.
pub record Hardware : Type 0 where
  pub time : ℕ
  pub msr : Register → ℕ
  pub perf_value : ℕ → PerfValue

-- `struct perf_event_config`. The type is always PERF_TYPE_RAW.
pub record PerfEventConfig : Type 0 where
  pub config : ℕ

-- `struct perf_counter_per_cpu`
pub record PerfCounterPerCpu : Type 0 where
  pub total : ℕ
  pub enabled : ℕ
  pub running : ℕ
  pub event : Option ℕ

-- `struct perf_counter_context`. The mask is the list of its cpus.
pub record PerfCounterContext : Type 0 where
  pub config : PerfEventConfig
  pub mask : List ℕ
  pub events : List PerfCounterPerCpu

-- `struct ipmi_sensor_config`
pub record IpmiSensorConfig : Type 0 where
  pub name : Text
  pub base : ℤ
  pub sensor_number : ℕ
  pub mul : ℕ

-- `struct ipmi_sensor_ctx`
pub record IpmiSensorCtx : Type 0 where
  pub config : IpmiSensorConfig
  pub sensor_reading : ℕ

-- `struct ipmi_sensors_ctx`. `nctxs` is the number of elements of `ctxs`.
pub record IpmiSensorsCtx : Type 0 where
  pub user : Option ℕ
  pub msgid : ℕ
  pub ctxs : List IpmiSensorCtx

-- The static `cham_groupA_ctx`, `cham_groupB_ctx` and `cham_misc_ctx`.
pub data Group : Type 0 where
  group_a group_b misc : Group

pub record IpmiSensors : Type 0 where
  pub at_a : IpmiSensorsCtx
  pub at_b : IpmiSensorsCtx
  pub at_misc : IpmiSensorsCtx

abbrev pub group : Group → IpmiSensors → IpmiSensorsCtx
group group_a s = s.at_a
group group_b s = s.at_b
group misc s = s.at_misc

abbrev pub set_group : Group → IpmiSensorsCtx → IpmiSensors → IpmiSensors
set_group group_a c s = record s { at_a = c }
set_group group_b c s = record s { at_b = c }
set_group misc c s = record s { at_misc = c }

-- A slot of `node->ctxs`. `freed` is a pointer to memory given back.
pub data Ctx : Type 0 where
  word : ℕ → Ctx
  perf : PerfCounterContext → Ctx
  ipmi : Group → Ctx
  freed : Ctx

abbrev pub null : Ctx
null = word 0

-- `(uint64_t) *ctx`, of a slot that holds a number.
abbrev pub as_word : Ctx → Option ℕ
as_word (word n) = some n
as_word _ = none

-- What a round does to the outside.
pub data Effect : Type 0 where
  wrmsr : Register → ℕ → Effect
  request : (user msgid sensor : ℕ) → Effect
  release : (event : ℕ) → Effect

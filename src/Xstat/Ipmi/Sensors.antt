-- ===== src/Xstat/Ipmi/Sensors.antt =====
-- The static tables of sensors of xstat/ipmi_cnt.c, and what every sensor of them satisfies.
use xstats.Base.{ℕ, ◌+◌, ◌^◌, ◌≤◌, ◌<◌, List, [], ◌∷◌, none, arith, All, length}
use xstats.Base.Int.{ℤ, pos, negsuc, Within}
use xstats.Base.Text.{Text, codes}
use xstats.Xstat.World.{IpmiSensorCtx, IpmiSensorsCtx, IpmiSensors}

-- `__IPMI_CTX(sname, snum, smul, sbase)`
abbrev pub ipmi_ctx : Text → ℕ → ℕ → ℤ → IpmiSensorCtx
ipmi_ctx sname snum smul sbase = record {
  config = record { name = sname; base = sbase; sensor_number = snum; mul = smul };
  sensor_reading = 0;
}

abbrev pub cham_group_a_ctxs : List IpmiSensorCtx
cham_group_a_ctxs =
    ipmi_ctx (codes "Fan1A") 48 120 (pos 0)
    ∷ ipmi_ctx (codes "Fan2A") 50 120 (pos 0)
    ∷ ipmi_ctx (codes "Fan3A") 52 120 (pos 0)
    ∷ ipmi_ctx (codes "Fan4A") 54 120 (pos 0)
    ∷ ipmi_ctx (codes "Fan5A") 56 120 (pos 0)
    ∷ ipmi_ctx (codes "Fan6A") 58 120 (pos 0)
    ∷ ipmi_ctx (codes "Fan7A") 60 120 (pos 0)
    ∷ []

abbrev pub cham_group_b_ctxs : List IpmiSensorCtx
cham_group_b_ctxs =
    ipmi_ctx (codes "Fan1B") 49 120 (pos 0)
    ∷ ipmi_ctx (codes "Fan2B") 51 120 (pos 0)
    ∷ ipmi_ctx (codes "Fan3B") 53 120 (pos 0)
    ∷ ipmi_ctx (codes "Fan4B") 55 120 (pos 0)
    ∷ ipmi_ctx (codes "Fan5B") 57 120 (pos 0)
    ∷ ipmi_ctx (codes "Fan6B") 58 120 (pos 0)
    ∷ ipmi_ctx (codes "Fan7B") 61 120 (pos 0)
    ∷ []

abbrev pub cham_misc_ctxs : List IpmiSensorCtx
cham_misc_ctxs =
    ipmi_ctx (codes "tinlet") 4 1 (negsuc 127)
    ∷ ipmi_ctx (codes "toutlet") 1 1 (negsuc 127)
    ∷ ipmi_ctx (codes "tp0") 14 1 (negsuc 127)
    ∷ ipmi_ctx (codes "tp1") 15 1 (negsuc 127)
    ∷ ipmi_ctx (codes "totpwr") 119 14 (pos 0)
    ∷ []

abbrev sensors_ctx : List IpmiSensorCtx → IpmiSensorsCtx
sensors_ctx ctxs = record { user = none; msgid = 0; ctxs = ctxs }

-- The groups as the module is loaded.
abbrev pub ipmi_sensors : IpmiSensors
ipmi_sensors = record {
  at_a = sensors_ctx cham_group_a_ctxs;
  at_b = sensors_ctx cham_group_b_ctxs;
  at_misc = sensors_ctx cham_misc_ctxs;
}

-- A sensor within its C types: a name of at most 7 characters, `int16_t base`, `uint8_t mul` and
-- `uint8_t sensor_reading`.
pub record IsSensor (c : IpmiSensorCtx) : Type 0 where
  pub name_short : length c.config.name ≤ 7
  pub base_small : Within (2 ^ 15 + 1) c.config.base
  pub mul_small : c.config.mul < 2 ^ 8
  pub reading_small : c.sensor_reading < 2 ^ 8

-- A group of at most eight sensors, as many as a sample has bytes.
abbrev pub IsGroup : IpmiSensorsCtx → Type 0
IsGroup ctx = (length ctx.ctxs ≤ 8) × All IsSensor ctx.ctxs

pub record AreSensors (s : IpmiSensors) : Type 0 where
  pub a_valid : IsGroup s.at_a
  pub b_valid : IsGroup s.at_b
  pub misc_valid : IsGroup s.at_misc

-- The static tables satisfy it.
pub ipmi_sensors-AreSensors : AreSensors ipmi_sensors
ipmi_sensors-AreSensors = omega arith

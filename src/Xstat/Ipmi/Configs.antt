-- ===== src/Xstat/Ipmi/Configs.antt =====
-- The configurations of the sensors, which no sample and no message changes, decide what is printed.
use xstats.Base.{
  ℕ, zero, suc, ◌+◌, ◌^◌, ◌≤◌, ◌<◌, ◌≡◌, refl, sym, ap, ◌∙◌, inl, inr, Bool, true, false, List, [],
  ◌∷◌, ◌++◌, ◌%◌, ◌/◌, map, Option, none, some, arith, length, get_elem?, set, All, length-set, ltb,
  Option-cases, Bool-cases,
}
use mathlib.Core.Path.{subst}
use xstats.Base.Int.{Within}
use xstats.Base.Text.{Text}
use xstats.Xstat.World.{IpmiSensorConfig, IpmiSensorCtx, IpmiSensorsCtx}
use xstats.Xstat.Ipmi.{restart, msg_handler, item_text}
use xstats.Xstat.Ipmi.Sensors.{IsSensor, IsGroup}
use xstats.Xstat.Ipmi.Print.{sensors_text}

abbrev pub configs : List IpmiSensorCtx → List IpmiSensorConfig
configs cs = map (λ c. c.config) cs

configs_text : Bool → List IpmiSensorConfig → ℕ → Text
configs_text first [] w = []
configs_text first (c ∷ cs) w = item_text first c (w % 2 ^ 8) ++ configs_text false cs (w / 2 ^ 8)

sensors_text-configs :
    (first : Bool) (cs : List IpmiSensorCtx) (w : ℕ)
    → sensors_text first cs w ≡ configs_text first (configs cs) w
unfolding configs_text
sensors_text-configs first [] w = refl
sensors_text-configs first (c ∷ cs) w =
    ap (λ t. item_text first c.config (w % 2 ^ 8) ++ t) (sensors_text-configs false cs (w / 2 ^ 8))

-- Sensors with the same configurations print the same text.
pub sensors_text_same :
    (cs ds : List IpmiSensorCtx) (w : ℕ)
    → configs cs ≡ configs ds
    → sensors_text true cs w ≡ sensors_text true ds w
sensors_text_same cs ds w e =
    sensors_text-configs true cs w
    ∙ ap (λ c. configs_text true c w) e
    ∙ sym (sensors_text-configs true ds w)

pub restart-ctxs : (ctx : IpmiSensorsCtx) → (restart ctx).1.0.ctxs ≡ ctx.ctxs
unfolding restart
restart-ctxs ctx = refl

set_keeps :
    (cs : List IpmiSensorCtx) (i reading : ℕ) (c : IpmiSensorCtx)
    → get_elem? cs i ≡ some c
    → reading < 2 ^ 8
    → All IsSensor cs
    → All IsSensor (set cs i (record c { sensor_reading = reading }))
      × (configs (set cs i (record c { sensor_reading = reading })) ≡ configs cs)
set_keeps [] i reading c e h v = (tt, refl)
set_keeps (d ∷ cs) zero reading c e h v =
    let same : d ≡ c = ground arith in
    (
      (
        record {
          name_short = subst (λ x. length x.config.name ≤ 7) same v.0.name_short;
          base_small = subst (λ x. Within (2 ^ 15 + 1) x.config.base) same v.0.base_small;
          mul_small = subst (λ x. x.config.mul < 2 ^ 8) same v.0.mul_small;
          reading_small = h;
        },
        v.1,
      ),
      ap (λ x. x.config ∷ configs cs) (sym same),
    )
set_keeps (d ∷ cs) (suc i) reading c e h v =
    let (all, same) = set_keeps cs i reading c e h v.1 in ((v.0, all), ap (λ l. d.config ∷ l) same)

second-All :
    (payload : List ℕ) (reading : ℕ)
    → get_elem? payload 1 ≡ some reading
    → All (λ b. b < 2 ^ 8) payload
    → reading < 2 ^ 8
second-All [] reading e h = absurd (ground arith)
second-All (x ∷ []) reading e h = absurd (ground arith)
second-All (x ∷ y ∷ rest) reading e h =
    let same : y ≡ reading = ground arith in omega (arith, h.1.0)

-- A message of bytes leaves a group a group, with the same configurations.
pub msg_handler_keeps :
    (root : IpmiSensorsCtx) (sensor : Option ℕ) (payload : List ℕ)
    → All (λ b. b < 2 ^ 8) payload
    → IsGroup root
    → IsGroup (msg_handler root sensor payload)
      × (configs (msg_handler root sensor payload).ctxs ≡ configs root.ctxs)
unfolding msg_handler
msg_handler_keeps root none payload h v = (v, refl)
msg_handler_keeps root (some i) payload h v = elim (Option-cases (get_elem? root.ctxs i)) [
  | inl e ↦ rw (e, msg_handler) (v, refl)
  | inr (c, e) ↦ elim (Option-cases (get_elem? payload 1)) [
    | inl e' ↦ rw (e, e', msg_handler) (v, refl)
    | inr (reading, e') ↦ elim (Bool-cases (ltb 2 (length payload))) [
      | inr short ↦ rw (e, e', short, msg_handler) (v, refl)
      | inl long ↦
          let (all, same) =
            set_keeps root.ctxs i reading c e (second-All payload reading e' h) v.1 in
          let sizes = length-set root.ctxs i (record c { sensor_reading = reading }) in
          rw (e, e', long, msg_handler) ((omega (arith, sizes, v.0), all), same)
    ]
  ]
]

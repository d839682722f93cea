-- ===== src/Xstat/Ipmi/Sample.antt =====
-- What a sample of a group holds, and the requests that taking it sends.
use native.Mathlib.Nat.{pow-suc, one-le-pow}
use xstats.Base.{
  ℕ, zero, suc, ◌+◌, ◌*◌, ◌^◌, ◌≤◌, ◌<◌, bit_or, ◌≡◌, refl, List, [], ◌∷◌, ◌++◌, Option, none, some,
  arith, u32, u64, length, All,
}
use xstats.Base.Bits.{bit_or_fields}
use xstats.Base.Bytes.{pack}
use xstats.Xstat.World.{IpmiSensorCtx, IpmiSensorsCtx, Effect, request}
use xstats.Xstat.Ipmi.{ask, restart_sensors, restart}
use xstats.Xstat.Ipmi.Sensors.{IsSensor, IsGroup}

abbrev pub readings : List IpmiSensorCtx → List ℕ
readings [] = []
readings (c ∷ cs) = c.sensor_reading ∷ readings cs

-- One request for each sensor, the last one first, with successive message numbers.
abbrev pub requests : Option ℕ → ℕ → List IpmiSensorCtx → List Effect
requests none msgid cs = []
requests (some user) msgid [] = []
requests (some user) msgid (c ∷ cs) =
    requests (some user) msgid cs
    ++ (request user (u32 (msgid + length cs)) c.config.sensor_number ∷ [])

abbrev pub next_msgid : Option ℕ → ℕ → List IpmiSensorCtx → ℕ
next_msgid none msgid cs = msgid
next_msgid (some user) msgid cs = u32 (msgid + length cs)

pack-lt :
    (k : ℕ) (cs : List IpmiSensorCtx)
    → length cs ≤ k
    → All IsSensor cs
    → pack (readings cs) < 256 ^ k
pack-lt zero [] h v = omega arith
pack-lt zero (c ∷ cs) h v = absurd (omega arith)
pack-lt (suc k) [] h v = one-le-pow (suc k) 256 (omega arith)
pack-lt (suc k) (c ∷ cs) h v =
    omega (arith, pow-suc 256 k, pack-lt k cs (omega arith) v.1, v.0.reading_small)

shift_in :
    (rest byte : ℕ)
    → rest < 256 ^ 7
    → byte < 256
    → bit_or (u64 (rest * 2 ^ 8)) byte ≡ byte + 2 ^ 8 * rest
shift_in rest byte h k = ground (arith, bit_or_fields 8 rest byte)

value_lem :
    (user : Option ℕ) (cs : List IpmiSensorCtx) (msgid : ℕ)
    → length cs ≤ 8
    → All IsSensor cs
    → (restart_sensors user cs msgid).0 ≡ pack (readings cs)
unfolding restart_sensors
value_lem user [] msgid h v = refl
value_lem user (c ∷ []) msgid h v =
    omega (arith, bit_or_fields 8 0 c.sensor_reading (v.0.reading_small))
value_lem user (c ∷ d ∷ cs) msgid h v =
    rw (value_lem user (d ∷ cs) msgid (omega arith) v.1)
      (shift_in _ _ (pack-lt 7 (d ∷ cs) (omega arith) v.1) v.0.reading_small)

sent_lem :
    (user : Option ℕ) (cs : List IpmiSensorCtx) (msgid : ℕ)
    → msgid < 2 ^ 32
    → (restart_sensors user cs msgid).1 ≡ (next_msgid user msgid cs, requests user msgid cs)
unfolding restart_sensors ask
sent_lem none [] msgid h = refl
sent_lem none (c ∷ cs) msgid h = sent_lem none cs msgid h
sent_lem (some user) [] msgid h = ground arith
sent_lem (some user) (c ∷ cs) msgid h = ground (arith, sent_lem (some user) cs msgid h)

-- A sample is a `uint64_t`.
pub restart-lt : (ctx : IpmiSensorsCtx) → IsGroup ctx → (restart ctx).0 < 2 ^ 64
unfolding restart
restart-lt ctx v = rw (value_lem ctx.user ctx.ctxs ctx.msgid v.0 v.1) (pack-lt 8 ctx.ctxs v.0 v.1)

-- A sample of a group of at most eight sensors within their C types, whose message number has 32
-- bits, packs the readings, the first sensor's in the lowest byte; where the group has a user,
-- every sensor is asked for its next reading, the last one first, under successive message
-- numbers.
pub restart_lem :
    (ctx : IpmiSensorsCtx)
    → IsGroup ctx
    → ctx.msgid < 2 ^ 32
    → restart ctx ≡ (
      pack (readings ctx.ctxs),
      (
        record ctx { msgid = next_msgid ctx.user ctx.msgid ctx.ctxs },
        requests ctx.user ctx.msgid ctx.ctxs,
      ),
    )
unfolding restart
restart_lem ctx v h =
    ground
      (arith, value_lem ctx.user ctx.ctxs ctx.msgid v.0 v.1, sent_lem ctx.user ctx.ctxs ctx.msgid h)

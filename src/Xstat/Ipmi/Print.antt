-- ===== src/Xstat/Ipmi/Print.antt =====
-- The text printed for a sample of a group, and its length.
use xstats.Base.{
  ℕ, ◌+◌, ◌-◌, ◌*◌, ◌/◌, ◌%◌, ◌^◌, ◌≤◌, ◌<◌, bit_and, ◌≡◌, refl, ap, ◌∙◌, Bool, true, false, List,
  [], ◌∷◌, ◌++◌, arith, length, length-append, take, take_all, All,
}
use xstats.Base.Bits.{bit_and_ones}
use xstats.Base.Int.{pos, Within, ◌+ℤ◌, +ℤ-Within, *ℤ-Within}
use xstats.Base.Text.{Text, codes, show_ℤ, length-show_ℤ}
use xstats.Kernel.{ok}
use xstats.Kernel.Printf.{Scnprintf}
use xstats.Xstat.World.{IpmiSensorCtx, IpmiSensorsCtx}
use xstats.Xstat.Ipmi.{value_of, item_text, print_sensors, scnprintf, restart}
use xstats.Xstat.Ipmi.Sensors.{IsSensor, IsGroup}
use xstats.Base.Bytes.{pack}
use xstats.Xstat.Ipmi.Sample.{readings, restart_lem}

-- The whole text for a data word: byte `i` is printed for sensor `i`.
abbrev pub sensors_text : Bool → List IpmiSensorCtx → ℕ → Text
sensors_text first [] d = []
sensors_text first (c ∷ cs) d =
    item_text first c.config (d % 2 ^ 8) ++ sensors_text false cs (d / 2 ^ 8)

-- The whole text for the readings that the sensors hold.
abbrev pub readings_text : Bool → List IpmiSensorCtx → Text
readings_text first [] = []
readings_text first (c ∷ cs) = item_text first c.config c.sensor_reading ++ readings_text false cs

value_small :
    (c : IpmiSensorCtx) (byte : ℕ)
    → IsSensor c
    → byte < 2 ^ 8
    → Within (10 ^ 8) (value_of c.config byte)
unfolding value_of
value_small c byte v h = omega (
  arith,
  *ℤ-Within (2 ^ 8 + (2 ^ 15 + 1)) (2 ^ 8) (pos byte +ℤ c.config.base) c.config.mul
      (+ℤ-Within (2 ^ 8) (2 ^ 15 + 1) (pos byte) c.config.base (omega arith) v.base_small)
      v.mul_small,
)

length-item_text :
    (first : Bool) (c : IpmiSensorCtx) (byte : ℕ)
    → IsSensor c
    → byte < 2 ^ 8
    → length (item_text first c.config byte) ≤ 20
length-item_text first c byte v h = ground (
  arith,
  length-append c.config.name (codes "\":" ++ show_ℤ (value_of c.config byte)),
  length-show_ℤ (value_of c.config byte) (value_small c byte v h),
)

-- At most twenty characters for each sensor.
pub length-sensors_text :
    (first : Bool) (cs : List IpmiSensorCtx) (d : ℕ)
    → All IsSensor cs
    → length (sensors_text first cs d) ≤ 20 * length cs
length-sensors_text first [] d v = omega arith
length-sensors_text first (c ∷ cs) d v = omega (
  arith,
  length-append (item_text first c.config (d % 2 ^ 8)) (sensors_text false cs (d / 2 ^ 8)),
  length-item_text first c (d % 2 ^ 8) v.0 (omega arith),
  length-sensors_text false cs (d / 2 ^ 8) v.1,
)

print_sensors_lem :
    (printf : Scnprintf) (first : Bool) (cs : List IpmiSensorCtx) (limit d : ℕ)
    → length (sensors_text first cs d) < limit
    → print_sensors printf first cs limit d ≡ ok (sensors_text first cs d)
unfolding print_sensors
print_sensors_lem printf first [] limit d h = refl
print_sensors_lem printf first (c ∷ cs) limit d h =
    let item : Text = item_text first c.config (d % 2 ^ 8) in
    let sizes = length-append item (sensors_text false cs (d / 2 ^ 8)) in
    rw
      (
        bit_and_ones 8 d,
        printf.write_lem limit item,
        take_all (limit - 1) item (omega (arith, sizes)),
        print_sensors_lem printf false cs (limit - length item) (d / 2 ^ 8) (omega (arith, sizes)),
      )
      refl

-- With room for it, the whole text is printed.
pub scnprintf_lem :
    (printf : Scnprintf) (ctx : IpmiSensorsCtx) (limit d : ℕ)
    → length (sensors_text true ctx.ctxs d) < limit
    → scnprintf printf ctx limit d ≡ ok (sensors_text true ctx.ctxs d)
unfolding scnprintf
scnprintf_lem printf ctx limit d h = print_sensors_lem printf true ctx.ctxs limit d h

sensors_text-pack :
    (first : Bool) (cs : List IpmiSensorCtx)
    → All IsSensor cs
    → sensors_text first cs (pack (readings cs)) ≡ readings_text first cs
sensors_text-pack first [] v = refl
sensors_text-pack first (c ∷ cs) v =
    rw
      (
        low_byte c.sensor_reading (pack (readings cs)) v.0.reading_small,
        high_bytes c.sensor_reading (pack (readings cs)) v.0.reading_small,
      )
      (rw (sensors_text-pack false cs v.1) refl)
  where
    low_byte : (b rest : ℕ) → b < 256 → (b + 256 * rest) % 256 ≡ b
    low_byte b rest h = omega arith

    high_bytes : (b rest : ℕ) → b < 256 → (b + 256 * rest) / 256 ≡ rest
    high_bytes b rest h = omega arith

-- For a group of at most eight sensors within their C types, with a message number of 32 bits and
-- room for twenty characters a sensor, what is printed for a sample just taken is, for each sensor
-- in order, its name and the value of the reading that it held: no reading is lost or mixed up on
-- the way through the packed word.
pub scnprintf-restart :
    (printf : Scnprintf) (ctx : IpmiSensorsCtx) (limit : ℕ)
    → IsGroup ctx
    → ctx.msgid < 2 ^ 32
    → 20 * length ctx.ctxs < limit
    → scnprintf printf ctx limit (restart ctx).0 ≡ ok (readings_text true ctx.ctxs)
scnprintf-restart printf ctx limit v m h = rw (restart_lem ctx v m) (
    scnprintf_lem printf ctx limit (pack (readings ctx.ctxs))
      (omega (arith, length-sensors_text true ctx.ctxs (pack (readings ctx.ctxs)) v.1))
    ∙ ap ok (sensors_text-pack true ctx.ctxs v.1))

print_sensors-ok :
    (printf : Scnprintf) (first : Bool) (cs : List IpmiSensorCtx) (limit d : ℕ)
    → (text : Text) × (print_sensors printf first cs limit d ≡ ok text)
unfolding print_sensors
print_sensors-ok printf first [] limit d = ([], refl)
print_sensors-ok printf first (c ∷ cs) limit d =
    let item : Text = take (limit - 1) (item_text first c.config (bit_and d 0xff)) in
    let (rest, run) = print_sensors-ok printf false cs (limit - length item) (d / 2 ^ 8) in
    (
      item ++ rest,
      rw (printf.write_lem limit (item_text first c.config (bit_and d 0xff)), run) refl,
    )

-- Printing a group succeeds, in whatever room there is.
pub scnprintf-ok :
    (printf : Scnprintf) (ctx : IpmiSensorsCtx) (limit d : ℕ)
    → (text : Text) × (scnprintf printf ctx limit d ≡ ok text)
unfolding scnprintf
scnprintf-ok printf ctx limit d = print_sensors-ok printf true ctx.ctxs limit d

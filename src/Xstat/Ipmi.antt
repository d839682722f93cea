-- ===== src/Xstat/Ipmi.antt =====
-- xstat/ipmi_cnt.c, as built with XSTAT_CHAMELEON: three groups of sensors read over IPMI.
-- The groups are static, one for the module, and are shared by all nodes.
pub mod Sensors
pub mod Sample
pub mod Receive
pub mod Configs
pub mod Print
use xstats.Base.{
  ℕ, zero, suc, ◌+◌, ◌-◌, ◌*◌, ◌/◌, ◌%◌, ◌^◌, bit_and, bit_or, Bool, true, false, List, [], ◌∷◌,
  ◌++◌, Option, none, some, u32, u64, ◌<<<◌, ◌>>>◌, ltb, ◌==◌, if◌then◌else◌, length, get_elem?,
  set,
}
use xstats.Base.Int.{ℤ, pos, ◌+ℤ◌, ◌*ℤ◌}
use xstats.Base.Text.{Text, codes, show_ℤ}
use xstats.Kernel.{Result, ok, failed, fault, ◌>>=◌}
use xstats.Kernel.Printf.{Scnprintf}
use xstats.Xstat.World.{
  IpmiSensorConfig, IpmiSensorCtx, IpmiSensorsCtx, Group, group_a, group_b, misc, IpmiSensors,
  group, set_group, Ctx, ipmi, Effect, request,
}

unfoldable pub cnt_init : Group → Ctx
cnt_init g = ipmi g

-- `ret <<= 8`, but not before the first sensor visited, which is the last of the array.
abbrev pub make_room : List IpmiSensorCtx → ℕ → ℕ
make_room [] ret = ret
make_room (_ ∷ _) ret = u64 (ret <<< 8)

-- The request for one sensor. `msgid` is an `int` that counts up and wraps.
pub ask : Option ℕ → IpmiSensorCtx → ℕ × List Effect → ℕ × List Effect
ask none c (msgid, sent) = (msgid, sent)
ask (some user) c (msgid, sent) =
    (u32 (msgid + 1), sent ++ (request user msgid c.config.sensor_number ∷ []))

-- The loop goes from the last sensor down to the first: the rest of the array comes before its head.
-- The result is `ret`, then `ctx->msgid` and the requests sent so far.
pub restart_sensors : Option ℕ → List IpmiSensorCtx → ℕ → ℕ × (ℕ × List Effect)
restart_sensors user [] msgid = (0, (msgid, []))
restart_sensors user (c ∷ cs) msgid =
    let (ret, sent) = restart_sensors user cs msgid in
    (bit_or (make_room cs ret) c.sensor_reading, ask user c sent)

pub restart : IpmiSensorsCtx → ℕ × (IpmiSensorsCtx × List Effect)
restart ctx =
    let (ret, (msgid, sent)) = restart_sensors ctx.user ctx.ctxs ctx.msgid in
    (ret, (record ctx { msgid = msgid }, sent))

-- The numeral printed for one sensor: (byte + base) * mul, in `int`.
pub value_of : IpmiSensorConfig → ℕ → ℤ
value_of cfg byte = (pos byte +ℤ cfg.base) *ℤ cfg.mul

-- The formats "\"%s\":%d" and ",\"%s\":%d".
abbrev pub item_text : Bool → IpmiSensorConfig → ℕ → Text
item_text first cfg byte =
    (if first then codes "\"" else codes ",\"")
    ++ (cfg.name ++ (codes "\":" ++ show_ℤ (value_of cfg byte)))

-- The loop of scnprintf: `first` is `i == 0`. The code does not look at a negative return; none of
-- scnprintf is, and `failed` stands for what would follow one.
pub print_sensors : Scnprintf → Bool → List IpmiSensorCtx → ℕ → ℕ → Result Text
print_sensors printf first [] limit data_word = ok []
print_sensors printf first (c ∷ cs) limit data_word = do
  s ← printf.write limit (item_text first c.config (bit_and data_word 0xff))
  rest ← print_sensors printf false cs (limit - length s) (data_word >>> 8)
  ok (s ++ rest)

pub scnprintf : Scnprintf → IpmiSensorsCtx → ℕ → ℕ → Result Text
scnprintf printf ctx limit data_word = print_sensors printf true ctx.ctxs limit data_word

-- `xstat_ipmi_msg_handler`. `sensor` is the place of the message's `user_msg_data` in the group's
-- array, `none` for a null pointer; `payload` is `msg.data`, `data_len` long.
pub msg_handler : IpmiSensorsCtx → Option ℕ → List ℕ → IpmiSensorsCtx
msg_handler root none payload = root
msg_handler root (some i) payload = elim (get_elem? root.ctxs i) [
  | none ↦ root
  | some c ↦ elim (get_elem? payload 1) [
    | none ↦ root
    | some reading ↦
        if ltb 2 (length payload)
        then record root { ctxs = set root.ctxs i (record c { sensor_reading = reading }) }
        else root
  ]
]

-- `xstat_register_bmc` for one counter: `create g` is what ipmi_create_user stores, if it succeeds.
pub register_user : (Group → Option ℕ) → Group → IpmiSensorsCtx → IpmiSensorsCtx
register_user create g ctx = elim ctx.user [ none ↦ record ctx { user = create g } | some u ↦ ctx ]

pub register_bmc : (Group → Option ℕ) → IpmiSensors → IpmiSensors
register_bmc create s = record {
  at_a = register_user create group_a s.at_a;
  at_b = register_user create group_b s.at_b;
  at_misc = register_user create misc s.at_misc;
}

-- `xstat_ipmi_exit`: the users destroyed, in order.
pub destroyed : IpmiSensorsCtx → List ℕ
destroyed ctx = elim ctx.user [ none ↦ [] | some u ↦ u ∷ [] ]

pub exit : IpmiSensors → IpmiSensors × List ℕ
exit s = (
  record {
    at_a = record s.at_a { user = none };
    at_b = record s.at_b { user = none };
    at_misc = record s.at_misc { user = none };
  },
  destroyed s.at_a ++ (destroyed s.at_b ++ destroyed s.at_misc),
)

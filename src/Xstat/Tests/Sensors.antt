-- ===== src/Xstat/Tests/Sensors.antt =====
-- Tests of the sensors read over IPMI.
use xstats.Base.{
  ℕ, true, ◌<◌, ◌≤◌, ◌⊎◌, length, get_elem?, List, ◌≢◌, ◌≡◌, [], ◌∷◌, Option, some, none, arith,
}
use xstats.Kernel.{ok}
use xstats.Xstat.World.{IpmiSensorsCtx, Group, group}
use xstats.Xstat.Ipmi.{restart, scnprintf, msg_handler, register_bmc, exit}
use xstats.Xstat.Ipmi.Sensors.{ipmi_sensors}
use xstats.Base.Bytes.{pack}
use xstats.Xstat.Ipmi.Sample.{readings, requests, next_msgid, restart_lem}
use xstats.Xstat.Ipmi.Print.{readings_text, scnprintf-restart}
use xstats.Xstat.Ipmi.Receive.{with_reading, created, msg_handler_lem, exit-register_bmc}
use xstats.Xstat.Tests.{plain}

-- The fans of group A, with a user and one reading.
abbrev fans : IpmiSensorsCtx
fans = record ipmi_sensors.at_a { user = some 3; ctxs = with_reading ipmi_sensors.at_a.ctxs 2 77 }

restart_example : restart fans ≡ (
  pack (readings fans.ctxs),
  (
    record fans { msgid = next_msgid fans.user fans.msgid fans.ctxs },
    requests fans.user fans.msgid fans.ctxs,
  ),
)
restart_example = restart_lem fans (omega arith) (omega arith)

scnprintf-restart_example :
    scnprintf plain fans 4096 (restart fans).0 ≡ ok (readings_text true fans.ctxs)
scnprintf-restart_example =
    scnprintf-restart plain fans 4096 (omega arith) (omega arith) (omega arith)

-- A response of two bytes.
abbrev short_payload : List ℕ
short_payload = 0 ∷ 42 ∷ []

msg_handler_example :
    ((i : ℕ) × (reading : ℕ) × (some 6 ≡ some i)
      × (i < length fans.ctxs)
      × (2 < length short_payload)
      × (get_elem? short_payload 1 ≡ some reading)
      × (msg_handler fans (some 6) short_payload
          ≡ record fans { ctxs = with_reading fans.ctxs i reading }))
    ⊎ (((◌≡◌ {A = Option ℕ} (some 6) none)
          ⊎ ((i : ℕ) × (some 6 ≡ some i) × (length fans.ctxs ≤ i))
          ⊎ (length short_payload ≤ 2))
        × (msg_handler fans (some 6) short_payload ≡ fans))
msg_handler_example = msg_handler_lem fans (some 6) short_payload

abbrev users : Group → Option ℕ
users Group.group_a = some 1
users Group.group_b = some 2
users Group.misc = some 3

abbrev other_users : Group → Option ℕ
other_users g = some 9

users_given : (g : Group) → users g ≢ none
users_given Group.group_a = cc
users_given Group.group_b = cc
users_given Group.misc = cc

exit-register_bmc_example :
    let s' = exit (register_bmc other_users (register_bmc users (exit ipmi_sensors).0)) in
    (s'.1 ≡ created users) × ((g : Group) → (group g s'.0).user ≡ none)
exit-register_bmc_example = exit-register_bmc users other_users ipmi_sensors users_given

-- ===== src/Xstat/History.antt =====
-- A node under any interleaving of its thread with the answers to its IPMI requests, reads of `stat`
-- and writes of `reset`. Each of them holds the buffer's lock where it touches the ring, so that a
-- history is a sequence of whole actions.
pub mod Same
pub mod Moves
pub mod Delivers
use mathlib.Core.List.{Sublist, nil-sublist, map-append}
use mathlib.Core.List.Sublist
use mathlib.Core.Path.{fun_ext, subst}
use xstats.Base.{
  ℕ, zero, suc, ◌≤◌, ◌+◌, ◌^◌, ◌<◌, ◌≡◌, refl, sym, ap, ap₂, ◌∙◌, List, [], ◌∷◌, ◌++◌, map,
  append_assoc, append-nil, Option, arith, length, take, drop, concat, All, get_or, lt→ltb, inl,
  inr,
}
use xstats.Base.Text.{Text, codes}
use xstats.Kernel.{Result, ok, ◌>>=◌}
use xstats.Kernel.Printf.{Scnprintf}
use xstats.Ring
use xstats.Ring.{Ring}
use xstats.Ring.Refine.{IsValid, reset_refines}
use xstats.Page.{page_size}
use xstats.Page.Drain.{drain_lem}
use xstats.Page.History.{append-Sublist, take-drop, concat-map_append, Sublist-chain}
use xstats.Xstat.World.{
  Hardware, IpmiSensors, IpmiSensorsCtx, Group, group_a, group_b, misc, group, set_group, null,
}
use xstats.Xstat.Clock.{get_time}
use xstats.Xstat.Ipmi.{msg_handler}
use xstats.Xstat.Ipmi.Sensors.{AreSensors, IsGroup, IsSensor}
use xstats.Xstat.Ipmi.Configs.{configs, restart-ctxs, sensors_text_same, msg_handler_keeps}
use xstats.Xstat.Table.{
  Counter, ts, intv, temp, energy, eunit, perflmt, event, sensors, node_counters,
}
use xstats.Xstat.Node.{Node, ncnt, nbuf, roll_buffer}
use xstats.Xstat.Node.Slots.{Slots, next_slots, row_of, next_groups}
use xstats.Xstat.Node.Roll.{IsSampling, field, samples, roll_buffer_lem}
use xstats.Xstat.Show.{print_buffer, show_stat_attr, store_reset_attr}
use xstats.Xstat.Show.Line.{Wired, item_text, items_text, comma_after, line_text}
use xstats.Xstat.Show.Stat.{print_buffer-Prints}
use xstats.Xstat.Show.Reset.{store_reset_attr_lem}

-- A node and the sensors that all nodes share.
pub record State : Type 0 where
  pub node : Node
  pub groups : IpmiSensors

-- A round of the thread, a response of the IPMI layer for a group, a read of `stat`, or a write of
-- `count` bytes to `reset`.
pub data Action : Type 0 where
  roll : (hw : Hardware) → Action
  receive : (g : Group) (sensor : Option ℕ) (payload : List ℕ) → Action
  read : Action
  reset : (count : ℕ) → Action

-- The times of the rounds.
abbrev pub times : List Action → List ℕ
times [] = []
times (roll hw ∷ acts) = get_time hw ∷ times acts
times (receive g sensor payload ∷ acts) = times acts
times (read ∷ acts) = times acts
times (reset count ∷ acts) = times acts

-- The data of a response is bytes.
abbrev pub IsBytes : Action → Type 0
IsBytes (receive g sensor payload) = All (λ b. b < 2 ^ 8) payload
IsBytes _ = Unit {0}

module _ (printf : Scnprintf) (scale : ℕ → ℕ → ℕ → ℕ) where
  pub act : Action → State → Result (Text × State)
  act (roll hw) s = do
    (node, (groups, effects)) ← roll_buffer scale hw s.node s.groups
    ok ([], record { node = node; groups = groups })
  act (receive g sensor payload) s =
      let ctx = msg_handler (group g s.groups) sensor payload in
      ok ([], record s { groups = set_group g ctx s.groups })
  act read s = do
    (text, node) ← show_stat_attr printf s.groups s.node
    ok (text, record s { node = node })
  act (reset count) s = ok ([], record s { node = store_reset_attr s.node count })

  -- The text that the readers get, all together.
  pub run : List Action → State → Result (Text × State)
  run [] s = ok ([], s)
  run (a ∷ acts) s = do (text, mid) ← act a s; (more, s') ← run acts mid; ok (text ++ more, s')

-- The thread has set its slots, and the sensors are within their C types.
pub record IsLive (s : State) : Type 0 where
  pub slots : Slots
  pub sampling : IsSampling s.node slots
  pub are_sensors : AreSensors s.groups

-- ===== src/Xstat/History/Moves.antt =====
-- What each action on a node does to the rows that are held and delivered.
use mathlib.Core.List.{Sublist, nil-sublist}
use mathlib.Core.List.Sublist
use xstats.Base.{
  ℕ, zero, suc, ◌^◌, ◌<◌, ◌≡◌, refl, sym, ap, List, [], ◌∷◌, ◌++◌, map, append-nil, Option, arith,
  take, concat, All, get_or, lt→ltb,
}
use xstats.Base.Text.{Text}
use xstats.Kernel.{Result, ok}
use xstats.Kernel.Printf.{Scnprintf}
use xstats.Ring
use xstats.Ring.{Ring}
use xstats.Ring.Refine.{IsValid, reset_refines}
use xstats.Page.{page_size}
use xstats.Page.Drain.{drain_lem}
use xstats.Page.History.{append-Sublist, take-drop}
use xstats.Xstat.World.{Hardware, Group, group, set_group, null}
use xstats.Xstat.Clock.{get_time}
use xstats.Xstat.Ipmi.{msg_handler}
use xstats.Xstat.Ipmi.Configs.{msg_handler_keeps}
use xstats.Xstat.Table.{node_counters}
use xstats.Xstat.Node.{ncnt, nbuf}
use xstats.Xstat.Node.Slots.{next_slots, row_of, next_groups}
use xstats.Xstat.Node.Roll.{field, samples, roll_buffer_lem}
use xstats.Xstat.Show.{show_stat_attr, store_reset_attr}
use xstats.Xstat.Show.Line.{Wired, line_text}
use xstats.Xstat.Show.Stat.{print_buffer-Prints}
use xstats.Xstat.History.{State, roll, receive, read, reset, act, IsLive}
use xstats.Xstat.History.Same.{
  Same, Same-next_groups, next_groups-AreSensors, set_group-AreSensors, Same-set_group,
  IsGroup-group,
}

-- What a history from `s` comes to.
abbrev pub Delivers : State → List ℕ → Result (Text × State) → Type 0
Delivers s begun r =
    (text : Text) × (s' : State) × (brought : List (List ℕ)) × (delivered : List (List ℕ)) × (r
      ≡ ok (text, s'))
    × IsLive s'
    × Same s.groups s'.groups
    × (map (field 0) brought ≡ begun)
    × (text ≡ concat (map (line_text s.groups) delivered))
    × Sublist (delivered ++ samples s'.node) (samples s.node ++ brought)

module _ (printf : Scnprintf) (scale : ℕ → ℕ → ℕ → ℕ) where
  pub roll-Delivers :
      (hw : Hardware) (s : State)
      → IsLive s
      → Delivers s (get_time hw ∷ []) (act printf scale (roll hw) s)
  unfolding act
  roll-Delivers hw s v =
      let row = row_of scale hw (field 0 s.node.working_buf) v.slots s.groups in
      let (node, e, next, kept, log, task) =
        roll_buffer_lem scale hw s.node v.slots s.groups v.sampling in
      (
        [],
        record { node = node; groups = next_groups scale hw s.groups },
        row ∷ [],
        [],
        rw e refl,
        record {
          slots = next_slots scale hw (field 0 s.node.working_buf) v.slots;
          sampling = next;
          are_sensors = next_groups-AreSensors scale hw s.groups v.are_sensors;
        },
        Same-next_groups scale hw s.groups,
        refl,
        refl,
        rw log (append-Sublist nbuf (samples s.node) row),
      )

  pub receive-Delivers :
      (g : Group) (sensor : Option ℕ) (payload : List ℕ) (s : State)
      → All (λ b. b < 2 ^ 8) payload
      → IsLive s
      → Delivers s [] (act printf scale (receive g sensor payload) s)
  unfolding act
  receive-Delivers g sensor payload s h v =
      let ctx = msg_handler (group g s.groups) sensor payload in
      let (valid, same) =
        msg_handler_keeps (group g s.groups) sensor payload h
          (IsGroup-group s.groups g v.are_sensors) in
      (
        [],
        record s { groups = set_group g ctx s.groups },
        [],
        [],
        refl,
        record {
          slots = v.slots;
          sampling = v.sampling;
          are_sensors = set_group-AreSensors s.groups g ctx v.are_sensors valid;
        },
        Same-set_group s.groups g ctx (sym same),
        refl,
        refl,
        rw (append-nil (samples s.node)) (Sublist.refl (samples s.node)),
      )

  with_ring-IsLive :
      (s : State) (ring : Ring)
      → IsLive s
      → IsValid ncnt nbuf ring
      → IsLive (record s { node = record s.node { ring = ring } })
  with_ring-IsLive s ring v valid = record {
    slots = v.slots;
    sampling = record {
      slots_are = v.sampling.slots_are;
      working = v.sampling.working;
      in_order = valid;
    };
    are_sensors = v.are_sensors;
  }

  pub read-Delivers : (s : State) → IsLive s → Delivers s [] (act printf scale read s)
  unfolding act show_stat_attr
  read-Delivers s v =
      let wired : Wired node_counters 0 s.node.ctxs = (
        ap (λ c. get_or c 13 null) v.sampling.slots_are,
        (
          ap (λ c. get_or c 14 null) v.sampling.slots_are,
          (ap (λ c. get_or c 15 null) v.sampling.slots_are, tt),
        ),
      ) in
      let (text, ring, e, d) =
        drain_lem ncnt nbuf _ _
          (print_buffer-Prints printf s.groups v.are_sensors s.node.ctxs wired)
          s.node.ring.buffer_size page_size s.node.ring v.sampling.in_order refl (omega arith) in
      (
        text,
        record s { node = record s.node { ring = ring } },
        [],
        take d.k (samples s.node),
        rw e refl,
        with_ring-IsLive s ring v d.valid,
        λ g. refl,
        refl,
        d.printed,
        rw (d.kept, take-drop d.k (samples s.node), append-nil (samples s.node))
            (Sublist.refl (samples s.node)),
      )

  pub reset-Delivers :
      (count : ℕ) (s : State) → IsLive s → Delivers s [] (act printf scale (reset count) s)
  unfolding act store_reset_attr
  reset-Delivers zero s v = (
    [],
    s,
    [],
    [],
    refl,
    v,
    λ g. refl,
    refl,
    refl,
    rw (append-nil (samples s.node)) (Sublist.refl (samples s.node)),
  )
  reset-Delivers (suc count) s v =
      let (valid, none_held) = reset_refines ncnt nbuf s.node.ring v.sampling.in_order in
      (
        [],
        record s { node = record s.node { ring = Ring.reset s.node.ring } },
        [],
        [],
        rw (lt→ltb 0 (suc count) (omega arith)) refl,
        with_ring-IsLive s (Ring.reset s.node.ring) v valid,
        λ g. refl,
        refl,
        refl,
        rw none_held (nil-sublist _),
      )

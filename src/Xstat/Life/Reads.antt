-- ===== src/Xstat/Life/Reads.antt =====
-- What else happens in the life of a node: rounds of other nodes, responses, reads and resets.
use mathlib.Core.List.{nil-sublist}
use mathlib.Core.List.Sublist
use xstats.Base.{
  ℕ, zero, suc, ◌^◌, ◌<◌, ◌≡◌, refl, sym, ap, ◌⊎◌, inl, inr, List, [], append-nil, Option, arith,
  take, All, get_or, lt→ltb,
}
use xstats.Kernel.Printf.{Scnprintf}
use xstats.Ring
use xstats.Ring.{Ring}
use xstats.Ring.Refine.{IsValid, reset_refines}
use xstats.Page.{page_size}
use xstats.Page.Drain.{drain_lem, drain_empty}
use xstats.Page.History.{take-drop}
use xstats.Xstat.World.{Hardware, Group, group, null}
use xstats.Xstat.Ipmi.{msg_handler}
use xstats.Xstat.Ipmi.Configs.{msg_handler_keeps}
use xstats.Xstat.Table.{node_counters}
use xstats.Xstat.Node.{Node, ncnt, nbuf}
use xstats.Xstat.Node.Roll.{samples}
use xstats.Xstat.Show.{print_buffer, show_stat_attr, store_reset_attr}
use xstats.Xstat.Show.Line.{Wired}
use xstats.Xstat.Show.Stat.{print_buffer-Prints}
use xstats.Xstat.History.Same.{
  Same-next_groups, next_groups-AreSensors, set_group-AreSensors, Same-set_group, IsGroup-group,
}
use xstats.Xstat.Life.{
  Phase, idle, woken, sampling, State, nothing, act, elsewhere, receive, read, reset,
}
use xstats.Xstat.Life.Laws.{IsResting, InPhase, IsAlive, Goes, Keeps-still}

-- The rows of the node can be printed: the slots of its sensors are set, or it holds none.
abbrev IsReadable : Node → Type 0
IsReadable node = Wired node_counters 0 node.ctxs ⊎ (node.ring.buffer_size ≡ 0)

InPhase-IsValid : (phase : Phase) (node : Node) → InPhase phase node → IsValid ncnt nbuf node.ring
InPhase-IsValid idle node (_, rests) = rests.resting.in_order
InPhase-IsValid woken node (_, rests) = rests.resting.in_order
InPhase-IsValid sampling node (_, _, live) = live.in_order

InPhase-IsReadable : (phase : Phase) (node : Node) → InPhase phase node → IsReadable node
InPhase-IsReadable idle node (_, rests) = rests.readable
InPhase-IsReadable woken node (_, rests) = rests.readable
InPhase-IsReadable sampling node (_, slots, live) = inl (
  ap (λ c. get_or c 13 null) live.slots_are,
  (ap (λ c. get_or c 14 null) live.slots_are, (ap (λ c. get_or c 15 null) live.slots_are, tt)),
)

with_ring-IsResting :
    (node : Node) (ring : Ring)
    → IsValid ncnt nbuf ring
    → IsReadable (record node { ring = ring })
    → IsResting node
    → IsResting (record node { ring = ring })
with_ring-IsResting node ring valid readable v = record {
  resting = record {
    idle = v.resting.idle;
    slots_are = v.resting.slots_are;
    working = v.resting.working;
    in_order = valid;
  };
  none_held = v.none_held;
  readable = readable;
}

with_ring-InPhase :
    (phase : Phase) (node : Node) (ring : Ring)
    → IsValid ncnt nbuf ring
    → IsReadable (record node { ring = ring })
    → InPhase phase node
    → InPhase phase (record node { ring = ring })
with_ring-InPhase idle node ring valid readable (task, rests) =
    (task, with_ring-IsResting node ring valid readable rests)
with_ring-InPhase woken node ring valid readable (task, rests) =
    (task, with_ring-IsResting node ring valid readable rests)
with_ring-InPhase sampling node ring valid readable (task, slots, live) =
    (task, slots, record { slots_are = live.slots_are; working = live.working; in_order = valid })

with_ring-IsAlive :
    (s : State) (ring : Ring)
    → IsAlive s
    → IsValid ncnt nbuf ring
    → IsReadable (record s.node { ring = ring })
    → IsAlive (record s { node = record s.node { ring = ring } })
with_ring-IsAlive s ring v valid readable = record {
  in_phase = with_ring-InPhase s.phase s.node ring valid readable v.in_phase;
  are_sensors = v.are_sensors;
}

module _ (printf : Scnprintf) (scale : ℕ → ℕ → ℕ → ℕ) where
  pub elsewhere-Goes :
      (hw : Hardware) (s : State) → IsAlive s → Goes s (act scale printf (elsewhere hw) s)
  unfolding act
  elsewhere-Goes hw s v = (
    nothing,
    _,
    refl,
    Keeps-still s _
        (record {
          in_phase = v.in_phase;
          are_sensors = next_groups-AreSensors scale hw s.groups v.are_sensors;
        })
        (Same-next_groups scale hw s.groups) refl refl,
  )

  pub receive-Goes :
      (g : Group) (sensor : Option ℕ) (payload : List ℕ) (s : State)
      → All (λ b. b < 2 ^ 8) payload
      → IsAlive s
      → Goes s (act scale printf (receive g sensor payload) s)
  unfolding act
  receive-Goes g sensor payload s h v =
      let ctx = msg_handler (group g s.groups) sensor payload in
      let (valid, same) =
        msg_handler_keeps (group g s.groups) sensor payload h
          (IsGroup-group s.groups g v.are_sensors) in
      (
        nothing,
        _,
        refl,
        Keeps-still s _
            (record {
              in_phase = v.in_phase;
              are_sensors = set_group-AreSensors s.groups g ctx v.are_sensors valid;
            })
            (Same-set_group s.groups g ctx (sym same)) refl refl,
      )

  -- The rows that are printed leave the ring.
  read-Wired :
      (s : State) → IsAlive s → Wired node_counters 0 s.node.ctxs → Goes s (act scale printf read s)
  unfolding act show_stat_attr
  read-Wired s v wired =
      let (text, ring, e, d) =
        drain_lem ncnt nbuf _ _
          (print_buffer-Prints printf s.groups v.are_sensors s.node.ctxs wired)
          s.node.ring.buffer_size page_size s.node.ring (InPhase-IsValid s.phase s.node v.in_phase)
          refl (omega arith) in
      (
        record nothing { text = text },
        record s { node = record s.node { ring = ring } },
        rw e refl,
        record {
          brought = [];
          delivered = take d.k (samples s.node);
          alive = with_ring-IsAlive s ring v d.valid (inl wired);
          same = λ g. refl;
          timed = refl;
          words = tt;
          printed = d.printed;
          kept =
              rw (d.kept, take-drop d.k (samples s.node), append-nil (samples s.node))
                (Sublist.refl (samples s.node));
          counted = append-nil _;
        },
      )

  read_empty :
      (s : State) → IsAlive s → s.node.ring.buffer_size ≡ 0 → Goes s (act scale printf read s)
  unfolding act show_stat_attr
  read_empty s v e = (
    nothing,
    s,
    rw (drain_empty ncnt nbuf (print_buffer printf s.groups s.node.ctxs) page_size s.node.ring e)
        refl,
    Keeps-still s s v (λ g. refl) refl refl,
  )

  pub read-Goes : (s : State) → IsAlive s → Goes s (act scale printf read s)
  read-Goes s v = elim (InPhase-IsReadable s.phase s.node v.in_phase) [
    | inl wired ↦ read-Wired s v wired
    | inr none_left ↦ read_empty s v none_left
  ]

  pub reset-Goes : (count : ℕ) (s : State) → IsAlive s → Goes s (act scale printf (reset count) s)
  unfolding act store_reset_attr Ring.reset
  reset-Goes zero s v = (nothing, s, refl, Keeps-still s s v (λ g. refl) refl refl)
  reset-Goes (suc count) s v =
      let (valid, none_held) =
        reset_refines ncnt nbuf s.node.ring (InPhase-IsValid s.phase s.node v.in_phase) in
      (
        nothing,
        record s { node = record s.node { ring = Ring.reset s.node.ring } },
        rw (lt→ltb 0 (suc count) (omega arith)) refl,
        record {
          brought = [];
          delivered = [];
          alive = with_ring-IsAlive s (Ring.reset s.node.ring) v valid (inr refl);
          same = λ g. refl;
          timed = refl;
          words = tt;
          printed = refl;
          kept = rw none_held (nil-sublist _);
          counted = append-nil _;
        },
      )

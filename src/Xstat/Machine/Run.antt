-- ===== src/Xstat/Machine/Run.antt =====
-- The module under any sequence of events.
use mathlib.Core.List.{Sublist}
use mathlib.Core.Path.{subst}
use xstats.Base.{
  ℕ, ◌^◌, ◌<◌, Bool, true, false, Option, none, some, List, [], ◌∷◌, ◌++◌, ◌≡◌, ◌⊎◌, inl, inr, refl,
  All, map, concat,
}
use xstats.Kernel.{ok}
use xstats.Kernel.Printf.{Scnprintf}
use xstats.Xstat.World.{IpmiSensors, release}
use xstats.Xstat.Node.{Node}
use xstats.Xstat.Node.Roll.{field, samples}
use xstats.Xstat.Show.Line.{line_text}
use xstats.Xstat.Life.{Phase, idle, woken, sampling, Outcome, nothing, and_then}
use xstats.Xstat.Life.Laws.{held_slots, Keeps}
use xstats.Xstat.Life.Delivers.{IsTyped}
use xstats.Xstat.Machine.{State, Event, on, off, receive, own, action_of, view, step, run}
use xstats.Xstat.Machine.Laws.{IsPlace, PlaceKeeps, place, IsOperating, Steps, PlaceKeeps-and_then}
use xstats.Xstat.Machine.Place.{regroup, own-Steps, receive-Steps}
use xstats.Xstat.Machine.Switch.{Makes, switch_on-Steps, switch_off-Steps}

-- What comes from outside is within its C types, kzalloc gives memory, and the kernel makes the threads.
abbrev pub IsFed : Event → Type 0
IsFed (on create) = Makes create
IsFed off = Unit {0}
IsFed (receive g sensor payload) = All (λ b. b < 2 ^ 8) payload
IsFed (own i a) = IsTyped (action_of a)

stays-somewhere :
    (g g' : IpmiSensors) (p p' : Phase) (node : Node) (o : Outcome) (n' : Option Node)
    → PlaceKeeps g p (some node) o g' p' n'
    → (node' : Node) × (n' ≡ some node') × Keeps (view g p node) o (view g' p' node')
stays-somewhere g g' p p' node o none k = absurd k
stays-somewhere g g' p p' node o (some node') k = (node', refl, k)

-- No event is held where the module is off.
held-off :
    (c : Bool) (g : IpmiSensors) (p : Phase) (node : Node)
    → IsPlace c g p (some node)
    → (c ≡ true) ⊎ (held_slots node.ctxs ≡ [])
held-off true g p node v = inl refl
held-off false g idle node (alive, _) = inr alive.in_phase.1.none_held
held-off false g woken node (alive, other) = absurd other
held-off false g sampling node (alive, other) = absurd other

module _ (scale : ℕ → ℕ → ℕ → ℕ) (printf : Scnprintf) where
  step-Steps : (e : Event) (s : State) → IsFed e → IsOperating s → Steps s (step scale printf e s)
  unfolding step
  step-Steps (on create) s h v = switch_on-Steps create s.module_state.ctrl_on s h refl v
  step-Steps off s h v = switch_off-Steps s.module_state.ctrl_on s refl v
  step-Steps (receive g sensor payload) s h v = receive-Steps scale printf g sensor payload s h v
  step-Steps (own i a) s h v = own-Steps scale printf i a s h v

  run-Steps :
      (events : List Event) (s : State)
      → All IsFed events
      → IsOperating s
      → Steps s (run scale printf events s)
  unfolding run
  run-Steps [] s h v = (
    λ j. nothing,
    s,
    refl,
    v,
    λ j.
        (regroup s.module_state.ctrl_on _ _ (s.phases j) (place s j) (λ g. refl) v.are_sensors
          (v.places j)).1,
  )
  run-Steps (e ∷ events) s h v =
      let (outs, mid, one, v', k) = step-Steps e s h.0 v in
      let (outs', s', rest, v'', k') = run-Steps events mid h.1 v' in
      (
        λ j. and_then (outs j) (outs' j),
        s',
        rw (one, rest) refl,
        v'',
        λ j.
            PlaceKeeps-and_then s.module_state.groups mid.module_state.groups s'.module_state.groups
              (s.phases j) (mid.phases j) (s'.phases j) (place s j) (place mid j) (place s' j)
              (outs j) (outs' j) (k j) (k' j),
      )

  -- From a module at work, or loaded and off, with nodes that got their memory: in whatever order
  -- `ctrl` switches all threads on and off, threads begin and run rounds, responses come in, and `stat`
  -- is read and `reset` is written for any node, nothing fails and the module goes on, if the kernel
  -- makes the threads, no thread that begins is refused memory, and what comes from outside is within its C types. At each node, there is one row
  -- for each round of its thread, with the time of that round; what the node's readers get together is
  -- the whole lines of some rows, and these, and after them the rows held at the end, are rows held at
  -- the start or brought since, none twice, and in that order; the events held at the start and those
  -- made since are those released, in that order, and then those held at the end; and none is held
  -- where the module is off.
  pub xstat_run_lem :
      (events : List Event) (s : State) (i : ℕ) (node : Node)
      → All IsFed events
      → IsOperating s
      → place s i ≡ some node
      → (outs : ℕ → Outcome) × (s' : State) × (node' : Node) × (brought : List (List ℕ))
        × (delivered : List (List ℕ)) × (run scale printf events s ≡ ok (outs, s'))
        × IsOperating s'
        × (place s' i ≡ some node')
        × (map (field 0) brought ≡ (outs i).times)
        × ((outs i).text ≡ concat (map (line_text s.module_state.groups) delivered))
        × Sublist (delivered ++ samples node') (samples node ++ brought)
        × (held_slots node.ctxs ++ map release (outs i).made
            ≡ (outs i).released ++ held_slots node'.ctxs)
        × ((s'.module_state.ctrl_on ≡ true) ⊎ (held_slots node'.ctxs ≡ []))
  xstat_run_lem events s i node h v e =
      let (outs, s', run, v', k) = run-Steps events s h v in
      let g = s.module_state.groups in
      let g' = s'.module_state.groups in
      let (node', e', kept) =
        stays-somewhere g g' (s.phases i) (s'.phases i) node (outs i) (place s' i) (
          subst (λ n. PlaceKeeps g (s.phases i) n (outs i) g' (s'.phases i) (place s' i)) e
            (k i)) in
      (
        outs,
        s',
        node',
        kept.brought,
        kept.delivered,
        run,
        v',
        e',
        kept.timed,
        kept.printed,
        kept.kept,
        kept.counted,
        held-off s'.module_state.ctrl_on g' (s'.phases i) node'
            (subst (IsPlace s'.module_state.ctrl_on g' (s'.phases i)) e' (v'.places i)),
      )

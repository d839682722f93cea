-- ===== src/Xstat/Machine/Place.antt =====
-- What happens to one node, or to the sensors, keeps every place.
use native.Mathlib.Decide.{ℕ_discrete}
use mathlib.Core.Path.{subst}
use xstats.Base.{
  ℕ, zero, suc, ◌^◌, ◌<◌, Bool, true, false, Option, none, some, List, [], ◌∷◌, All, ◌≡◌, ◌≢◌, refl,
  sym, set, arith,
}
use xstats.Kernel.{ok}
use xstats.Kernel.Printf.{Scnprintf}
use xstats.Xstat.World.{IpmiSensors, PerfEventConfig, Hardware, Group, group, set_group}
use xstats.Xstat.Ipmi.{msg_handler}
use xstats.Xstat.Ipmi.Configs.{msg_handler_keeps}
use xstats.Xstat.Ipmi.Sensors.{AreSensors}
use xstats.Xstat.Clock.{get_time}
use xstats.Xstat.Node.{Node, init_counters, roll_buffer}
use xstats.Xstat.Show.{show_stat_attr}
use xstats.Xstat.Registry.{node_at}
use xstats.Xstat.Registry.Nodes.{node_at-set_ne}
use xstats.Xstat.History.Same.{Same, set_group-AreSensors, Same-set_group, IsGroup-group}
use xstats.Xstat.Life
use xstats.Xstat.Life.{
  Phase, idle, woken, sampling, Outcome, nothing, given, act, begin_thread, roll_thread,
}
use xstats.Xstat.Life.Laws.{IsAlive, Keeps, Keeps-still}
use xstats.Xstat.Life.Delivers.{IsTyped, act-Goes}
use xstats.Xstat.Machine.{
  State, Own, begin, roll, read, reset, action_of, view, at_place, put, step_own, step, receive,
  own,
}
use xstats.Xstat.Machine.Laws.{
  Agrees, IsPlace, PlaceKeeps, place, IsOperating, Steps, IfOk, IfOk->>=,
}

at_place_self {ℓ} : {A : Type ℓ} (i : ℕ) (x : A) (f : ℕ → A) → at_place i x f i ≡ x
unfolding at_place
at_place_self i x f = ground arith

at_place_ne {ℓ} : {A : Type ℓ} (i j : ℕ) (x : A) (f : ℕ → A) → j ≢ i → at_place i x f j ≡ f j
unfolding at_place
at_place_ne i j x f h = ground arith

node_at-set-some :
    (nodes : List (Option Node)) (i : ℕ) (node : Node) (o : Option Node)
    → node_at nodes i ≡ some node
    → node_at (set nodes i o) i ≡ o
node_at-set-some [] i node o e = absurd (cc e)
node_at-set-some (p ∷ nodes) zero node o e = refl
node_at-set-some (p ∷ nodes) (suc i) node o e = node_at-set-some nodes i node o e

-- Only the sensors change.
pub regroup :
    (c : Bool) (g g' : IpmiSensors) (p : Phase) (n : Option Node)
    → Same g g'
    → AreSensors g'
    → IsPlace c g p n
    → IsPlace c g' p n × PlaceKeeps g p n nothing g' p n
regroup c g g' p none same v h = (tt, tt)
regroup c g g' p (some node) same v (alive, on) =
    let alive' : IsAlive (view g' p node) = record { in_phase = alive.in_phase; are_sensors = v } in
    ((alive', on), Keeps-still (view g p node) (view g' p node) alive' same refl refl)

module _ (scale : ℕ → ℕ → ℕ → ℕ) (printf : Scnprintf) where
  Stays : Bool → Outcome × Life.State → Type 0
  Stays c w = Agrees c w.1.phase

  begin_thread-Agrees :
      (memory : ℕ → Bool) (create : PerfEventConfig → ℕ → Option ℕ) (c : Bool) (p : Phase)
      (s : Life.State)
      → s.phase ≡ p
      → Agrees c s.phase
      → IfOk (Stays c) (begin_thread memory create p s)
  unfolding begin_thread Stays
  begin_thread-Agrees memory create c idle s e h = h
  begin_thread-Agrees memory create c sampling s e h = h
  begin_thread-Agrees memory create true woken s e h =
      IfOk->>= (Stays true)
        (init_counters (λ i. record { allocated = memory i; create = create }) s.node)
        (λ node. ok (
          record nothing { made = given create s.node.mask },
          record s { node = node; phase = sampling },
        ))
        (λ node. tt)
  begin_thread-Agrees memory create false woken s e h = absurd (subst (Agrees false) e h)

  roll_thread-Agrees :
      (hw : Hardware) (c : Bool) (p : Phase) (s : Life.State)
      → Agrees c s.phase
      → IfOk (Stays c) (roll_thread scale hw p s)
  unfolding roll_thread Stays
  roll_thread-Agrees hw c idle s h = h
  roll_thread-Agrees hw c woken s h = h
  roll_thread-Agrees hw c sampling s h =
      IfOk->>= (Stays c) (roll_buffer scale hw s.node s.groups)
        (λ w.
          ok (record nothing { times = get_time hw ∷ [] }, record s { node = w.0; groups = w.1.0 }))
        (λ w. h)

  act-Agrees :
      (a : Own) (c : Bool) (s : Life.State)
      → Agrees c s.phase
      → IfOk (Stays c) (act scale printf (action_of a) s)
  unfolding act Stays
  act-Agrees (begin memory create) c s h = begin_thread-Agrees memory create c s.phase s refl h
  act-Agrees (roll hw) c s h = roll_thread-Agrees hw c s.phase s h
  act-Agrees read c s h =
      IfOk->>= (Stays c) (show_stat_attr printf s.groups s.node)
        (λ w. ok (record nothing { text = w.0 }, record s { node = w.1 })) (λ w. h)
  act-Agrees (reset count) c s h = h

  own_keeps :
      (a : Own) (c : Bool) (s : Life.State)
      → IsTyped (action_of a)
      → IsAlive s
      → Agrees c s.phase
      → (o : Outcome) × (l : Life.State) × (act scale printf (action_of a) s ≡ ok (o, l))
        × Keeps s o l
        × Agrees c l.phase
  unfolding Stays
  own_keeps a c s h v on =
      let (o, l, e, k) = act-Goes printf scale (action_of a) s h v in
      (o, l, e, k, subst (IfOk (Stays c)) e (act-Agrees a c s on))

-- What has become of place `j` after an action on place `i`.
abbrev AfterOwn : ℕ → State → Outcome → Life.State → ℕ → Type 0
AfterOwn i s o l j =
    let s' : State = put i l s in
    IsPlace s.module_state.ctrl_on l.groups (s'.phases j) (place s' j)
    × PlaceKeeps s.module_state.groups (s.phases j) (place s j) (at_place i o (λ n. nothing) j)
        l.groups (s'.phases j) (place s' j)

AfterOwn-self :
    (i : ℕ) (s : State) (node : Node) (o : Outcome) (l : Life.State)
    → place s i ≡ some node
    → Keeps (view s.module_state.groups (s.phases i) node) o l
    → Agrees s.module_state.ctrl_on l.phase
    → AfterOwn i s o l i
AfterOwn-self i s node o l e k on =
    rw
      (
        at_place_self i l.phase s.phases,
        at_place_self i o (λ n. nothing),
        node_at-set-some s.module_state.nodes i node (some l.node) e,
        e,
      )
      ((k.alive, on), k)

AfterOwn-ne :
    (i j : ℕ) (s : State) (node : Node) (o : Outcome) (l : Life.State)
    → IsOperating s
    → Keeps (view s.module_state.groups (s.phases i) node) o l
    → j ≢ i
    → AfterOwn i s o l j
AfterOwn-ne i j s node o l v k other =
    rw
      (
        at_place_ne i j l.phase s.phases other,
        at_place_ne i j o (λ n. nothing) other,
        node_at-set_ne s.module_state.nodes i j (some l.node) other,
      )
      (regroup _ _ l.groups (s.phases j) (place s j) k.same k.alive.are_sensors (v.places j))

module _ (scale : ℕ → ℕ → ℕ → ℕ) (printf : Scnprintf) where
  step_own-Steps :
      (i : ℕ) (a : Own) (on : Option Node) (s : State)
      → IsTyped (action_of a)
      → place s i ≡ on
      → IsOperating s
      → Steps s (step_own scale printf i a on s)
  unfolding step_own
  step_own-Steps i a none s h e v = (
    λ j. nothing,
    s,
    refl,
    v,
    λ j. (regroup _ _ _ (s.phases j) (place s j) (λ g. refl) v.are_sensors (v.places j)).1,
  )
  step_own-Steps i a (some node) s h e v =
      let (alive, on) =
        subst (IsPlace s.module_state.ctrl_on s.module_state.groups (s.phases i)) e (v.places i) in
      let (o, l, run, k, on') =
        own_keeps scale printf a s.module_state.ctrl_on
          (view s.module_state.groups (s.phases i) node) h alive on in
      let after : (j : ℕ) → AfterOwn i s o l j = λ j. elim (ℕ_discrete j i) [
        | yes same ↦ subst (AfterOwn i s o l) (sym same) (AfterOwn-self i s node o l e k on')
        | no other ↦ AfterOwn-ne i j s node o l v k other
      ] in
      (
        at_place i o (λ j. nothing),
        put i l s,
        rw run refl,
        record { places = λ j. (after j).0; are_sensors = k.alive.are_sensors },
        λ j. (after j).1,
      )

  pub own-Steps :
      (i : ℕ) (a : Own) (s : State)
      → IsTyped (action_of a)
      → IsOperating s
      → Steps s (step scale printf (own i a) s)
  unfolding step
  own-Steps i a s h v = step_own-Steps i a (place s i) s h refl v

  pub receive-Steps :
      (g : Group) (sensor : Option ℕ) (payload : List ℕ) (s : State)
      → All (λ b. b < 2 ^ 8) payload
      → IsOperating s
      → Steps s (step scale printf (receive g sensor payload) s)
  unfolding step
  receive-Steps g sensor payload s h v =
      let groups = s.module_state.groups in
      let ctx = msg_handler (group g groups) sensor payload in
      let (valid, same) =
        msg_handler_keeps (group g groups) sensor payload h
          (IsGroup-group groups g v.are_sensors) in
      let sensors = set_group-AreSensors groups g ctx v.are_sensors valid in
      let after = λ (j : ℕ).
        regroup s.module_state.ctrl_on groups (set_group g ctx groups) (s.phases j) (place s j)
          (Same-set_group groups g ctx (sym same)) sensors (v.places j) in
      (
        λ j. nothing,
        record s { module_state = record s.module_state { groups = set_group g ctx groups } },
        refl,
        record { places = λ j. (after j).0; are_sensors = sensors },
        λ j. (after j).1,
      )

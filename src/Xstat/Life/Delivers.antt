-- ===== src/Xstat/Life/Delivers.antt =====
-- The whole life of a node, in whatever order things happen to it.
use xstats.Base.{ℕ, true, ◌<◌, ◌^◌, ◌≡◌, refl, List, [], ◌∷◌, ◌++◌, inr, map, concat, All}
use xstats.Base.Sublists.{All-append, All-split, All-Sublist}
use xstats.Kernel.{ok}
use xstats.Kernel.Printf.{Scnprintf}
use xstats.Xstat.Node.Words.{AreWords, AreWords-IsProp, HasRegisters}
use xstats.Xstat.Node.Roll.{samples}
use xstats.Xstat.Show.Line.{line_text}
use xstats.Xstat.Ipmi.Sensors.{AreSensors}
use xstats.Xstat.Registry.{Site, new_node}
use xstats.Xstat.Registry.Nodes.{IsServed, new_node-IsIdle}
use xstats.Xstat.Life.{
  idle, State, Action, start, begin, roll, elsewhere, receive, read, stop, reset, Outcome, nothing,
  and_then, act, run,
}
use xstats.Xstat.Life.Laws.{held, IsAlive, Goes, Keeps-still, Keeps-and_then}
use xstats.Xstat.Life.Moves.{
  start_thread-Goes, begin_thread-Goes, roll_thread-Goes, stop_thread-Goes,
}
use xstats.Xstat.Life.Reads.{elsewhere-Goes, receive-Goes, read-Goes, reset-Goes}

-- kzalloc gives memory to a thread that begins, and what comes from outside is within its C types: the
-- data of a response is bytes, and a register that a round reads has 64 bits.
abbrev pub IsTyped : Action → Type 0
IsTyped (receive g sensor payload) = All (λ b. b < 2 ^ 8) payload
IsTyped (roll hw) = HasRegisters hw
IsTyped (begin memory create) = (i : ℕ) → memory i ≡ true
IsTyped _ = Unit {0}

-- A node that was registered with all its memory is alive without a thread.
pub new_node-IsAlive :
    (s : State) (site : Site) (nid : ℕ)
    → s.node ≡ new_node site nid
    → s.phase ≡ idle
    → IsServed site
    → AreSensors s.groups
    → IsAlive s
unfolding new_node
new_node-IsAlive s site nid e at v sensors = record {
  in_phase =
      rw (at, e)
        (
          refl,
          record {
            resting = new_node-IsIdle site nid v;
            none_held = rw v.ctxs_allocated refl;
            readable = inr refl;
          },
        );
  are_sensors = sensors;
}

module _ (printf : Scnprintf) (scale : ℕ → ℕ → ℕ → ℕ) where
  pub act-Goes : (a : Action) (s : State) → IsTyped a → IsAlive s → Goes s (act scale printf a s)
  unfolding act
  act-Goes (start thread) s h v = start_thread-Goes thread s.phase s refl v
  act-Goes (begin memory create) s h v = begin_thread-Goes memory create s.phase s h refl v
  act-Goes (roll hw) s h v = roll_thread-Goes scale hw s.phase s h refl v
  act-Goes (elsewhere hw) s h v = elsewhere-Goes printf scale hw s v
  act-Goes (receive g sensor payload) s h v = receive-Goes printf scale g sensor payload s h v
  act-Goes read s h v = read-Goes printf scale s v
  act-Goes stop s h v = stop_thread-Goes s.phase s refl v
  act-Goes (reset count) s h v = reset-Goes printf scale count s v

  run-Goes :
      (acts : List Action) (s : State)
      → All IsTyped acts
      → IsAlive s
      → Goes s (run scale printf acts s)
  unfolding run
  run-Goes [] s h v = (nothing, s, refl, Keeps-still s s v (λ g. refl) refl refl)
  run-Goes (a ∷ acts) s h v =
      let (o, mid, e, k) = act-Goes a s h.0 v in
      let (o', s', e', k') = run-Goes acts mid h.1 k.alive in
      (and_then o o', s', rw (e, e') refl, Keeps-and_then s mid s' o o' k k')

  -- From a node at rest, with a thread that did not run yet or with one that samples, whose rows are
  -- of words below 2 ^ 64: in whatever order its thread is made, begins, runs rounds and is stopped, the
  -- threads of other nodes run rounds, responses come in, `stat` is read and `reset` is written, nothing
  -- fails, what readers get together is the whole lines of rows of such words, and all rows held at the
  -- end are of such words, if a thread that begins is refused no memory, registers have 64 bits,
  -- responses are bytes and the sensors are within their C types at the start.
  pub node_life-AreWords :
      (acts : List Action) (s : State)
      → All IsTyped acts
      → IsAlive s
      → All AreWords (samples s.node)
      → (o : Outcome) × (s' : State) × (delivered : List (List ℕ)) × (run scale printf acts s
          ≡ ok (o, s'))
        × (o.text ≡ concat (map (line_text s.groups) delivered))
        × All AreWords delivered
        × All AreWords (samples s'.node)
  node_life-AreWords acts s h v held =
      let (o, s', e, k) = run-Goes acts s h v in
      let rows =
        All-Sublist AreWords AreWords-IsProp (k.delivered ++ samples s'.node)
          (samples s.node ++ k.brought) k.kept
          (All-append AreWords (samples s.node) k.brought held k.words) in
      let (delivered, left) = All-split AreWords k.delivered (samples s'.node) rows in
      (o, s', k.delivered, e, k.printed, delivered, left)

-- ===== src/Xstat/Life.antt =====
-- The life of one node of xstat: its thread is made, initialises its counters, samples and is stopped,
-- any number of times, in any interleaving with the threads of other nodes, the responses of the IPMI
-- layer, reads of `stat` and writes of `reset`.
pub mod Laws
pub mod Moves
pub mod Reads
pub mod Delivers
use xstats.Base.{ℕ, Bool, true, List, [], ◌∷◌, ◌++◌, Option, some}
use xstats.Base.Text.{Text}
use xstats.Kernel.{Result, ok, ◌>>=◌}
use xstats.Kernel.Printf.{Scnprintf}
use xstats.Xstat.World.{Hardware, PerfEventConfig, IpmiSensors, Group, group, set_group, Effect}
use xstats.Xstat.Clock.{get_time}
use xstats.Xstat.Ipmi.{msg_handler}
use xstats.Xstat.Perf.Held.{handed}
use xstats.Xstat.Table.{Setup, Event, cyc, inst, llcref, llcmiss, br, brmiss, l2lin, event_config}
use xstats.Xstat.Node
use xstats.Xstat.Node.{init_counters, exit_counters, roll_buffer}
use xstats.Xstat.Node.Slots.{next_groups}
use xstats.Xstat.Show.{show_stat_attr, store_reset_attr}
use xstats.Xstat.Control.{start_node, stop_node}

-- No thread; one that was made and did not run yet; one that has initialised the counters.
pub data Phase : Type 0 where
  idle woken sampling : Phase

-- A node, the sensors that all nodes share, and how far its thread is.
pub record State : Type 0 where
  pub node : Node.Node
  pub groups : IpmiSensors
  pub phase : Phase

-- `start` and `stop` are what start_stat and stop_stat do to the node, `begin` the start of its
-- thread, with the memory given for each counter and the events that the kernel makes, `roll` a round of it, and `elsewhere` what
-- a round of another node's thread does to the sensors.
pub data Action : Type 0 where
  start : (thread : ℕ) → Action
  begin : (memory : ℕ → Bool) (create : PerfEventConfig → ℕ → Option ℕ) → Action
  roll elsewhere : (hw : Hardware) → Action
  receive : (g : Group) (sensor : Option ℕ) (payload : List ℕ) → Action
  read stop : Action
  reset : (count : ℕ) → Action

-- What came of some actions: the text read, the times of the rounds, the events that the kernel made,
-- and the releases of events.
pub record Outcome : Type 0 where
  pub text : Text
  pub times : List ℕ
  pub made : List ℕ
  pub released : List Effect

abbrev pub nothing : Outcome
nothing = record { text = []; times = []; made = []; released = [] }

abbrev pub and_then : Outcome → Outcome → Outcome
and_then o o' = record {
  text = o.text ++ o'.text;
  times = o.times ++ o'.times;
  made = o.made ++ o'.made;
  released = o.released ++ o'.released;
}

-- The events of the counters of a node, in the order of the table.
abbrev pub all_handed : (PerfEventConfig → ℕ → Option ℕ) → List Event → List ℕ → List ℕ
all_handed create [] mask = []
all_handed create (e ∷ events) mask =
    handed create (event_config e) mask ++ all_handed create events mask

abbrev pub given : (PerfEventConfig → ℕ → Option ℕ) → List ℕ → List ℕ
given create mask =
    all_handed create (cyc ∷ inst ∷ llcref ∷ llcmiss ∷ br ∷ brmiss ∷ l2lin ∷ []) mask

-- While the node has a thread, start_stat finds the module on.
unfoldable pub start_thread : ℕ → Phase → State → Result (Outcome × State)
start_thread thread idle s =
    ok (nothing, record s { node = (start_node (some thread) s.node).0; phase = woken })
start_thread thread woken s = ok (nothing, s)
start_thread thread sampling s = ok (nothing, s)

unfoldable pub begin_thread :
    (ℕ → Bool) → (PerfEventConfig → ℕ → Option ℕ) → Phase → State → Result (Outcome × State)
begin_thread memory create woken s = do
  node ← init_counters (λ i. record { allocated = memory i; create = create }) s.node
  ok (
    record nothing { made = given create s.node.mask },
    record s { node = node; phase = sampling },
  )
begin_thread memory create idle s = ok (nothing, s)
begin_thread memory create sampling s = ok (nothing, s)

-- kthread_stop waits until the thread has left its function; a thread that did not run yet does not
-- enter it.
unfoldable pub stop_thread : Phase → State → Result (Outcome × State)
stop_thread sampling s = do
  (node, released) ← exit_counters s.node
  (node', thread) ← stop_node node
  ok (record nothing { released = released }, record s { node = node'; phase = idle })
stop_thread woken s = do
  (node, thread) ← stop_node s.node
  ok (nothing, record s { node = node; phase = idle })
stop_thread idle s = ok (nothing, s)

module _ (scale : ℕ → ℕ → ℕ → ℕ) where
  unfoldable pub roll_thread : Hardware → Phase → State → Result (Outcome × State)
  roll_thread hw sampling s = do
    (node, (groups, effects)) ← roll_buffer scale hw s.node s.groups
    ok (record nothing { times = get_time hw ∷ [] }, record s { node = node; groups = groups })
  roll_thread hw idle s = ok (nothing, s)
  roll_thread hw woken s = ok (nothing, s)

  unfoldable pub act : Scnprintf → Action → State → Result (Outcome × State)
  act printf (start thread) s = start_thread thread s.phase s
  act printf (begin memory create) s = begin_thread memory create s.phase s
  act printf (roll hw) s = roll_thread hw s.phase s
  act printf (elsewhere hw) s = ok (nothing, record s { groups = next_groups scale hw s.groups })
  act printf (receive g sensor payload) s =
      let ctx = msg_handler (group g s.groups) sensor payload in
      ok (nothing, record s { groups = set_group g ctx s.groups })
  act printf read s = do
    (text, node) ← show_stat_attr printf s.groups s.node
    ok (record nothing { text = text }, record s { node = node })
  act printf stop s = stop_thread s.phase s
  act printf (reset count) s = ok (nothing, record s { node = store_reset_attr s.node count })

  pub run : Scnprintf → List Action → State → Result (Outcome × State)
  run printf [] s = ok (nothing, s)
  run printf (a ∷ acts) s = do
    (o, mid) ← act printf a s
    (o', s') ← run printf acts mid
    ok (and_then o o', s')

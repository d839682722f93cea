-- ===== src/Xstat/Node/Refused.antt =====
-- Sampling of a node that was refused memory: the kzalloc results that register_xstat_node does not
-- look at.
use xstats.Base.{ℕ, ◌≡◌, refl, arith, List, [], ◌∷◌, Option, length}
use xstats.Kernel.{ok, fault}
use xstats.Ring.Room.{push-refused}
use xstats.Xstat.World.{PerfEventConfig, IpmiSensors}
use xstats.Xstat.Ipmi
use xstats.Xstat.Perf.{perf_init}
use xstats.Xstat.Table.{init}
use xstats.Xstat.Node.{
  Node, ncnt, nbuf, Round, init_slots, init_counters, roll_values, roll_buffer, sample_rounds,
  kthread_function,
}
use xstats.Xstat.Node.Slots.{slots_of, row_of}
use xstats.Xstat.Node.Lifecycle.{Idle, idle_slots, plenty, fresh_slots}
use xstats.Xstat.Node.Roll.{field, roll_values_any}

module _ (scale : ℕ → ℕ → ℕ → ℕ) (create : PerfEventConfig → ℕ → Option ℕ) (r : Round)
    (rounds : List Round) (groups : IpmiSensors) (node : Node) where
  abbrev ready : Idle → Node
  ready s = record node { ctxs = slots_of (fresh_slots create node.mask s) }

  init_counters-ready :
      (s : Idle) → node.ctxs ≡ idle_slots s → init_counters (plenty create) node ≡ ok (ready s)
  unfolding init_counters init_slots init perf_init Ipmi.cnt_init
  init_counters-ready s slots = rw slots refl

  kthread_function-roll :
      (s : Idle)
      → node.ctxs ≡ idle_slots s
      → roll_buffer scale r.hw (ready s) (r.meanwhile groups) ≡ fault
      → kthread_function scale (plenty create) (r ∷ rounds) node groups ≡ fault
  unfolding kthread_function sample_rounds
  kthread_function-roll s slots bad = rw (init_counters-ready s slots, bad) refl

  pub kthread_function-no_slots :
      node.ctxs ≡ [] → kthread_function scale (plenty create) (r ∷ rounds) node groups ≡ fault
  unfolding kthread_function init_counters init_slots
  kthread_function-no_slots slots = rw slots refl

  pub kthread_function-no_working :
      (s : Idle)
      → node.ctxs ≡ idle_slots s
      → node.working_buf ≡ []
      → kthread_function scale (plenty create) (r ∷ rounds) node groups ≡ fault
  unfolding roll_buffer roll_values
  kthread_function-no_working s slots none_there =
      kthread_function-roll s slots (rw none_there refl)

  pub kthread_function-no_ring :
      (s : Idle)
      → node.ctxs ≡ idle_slots s
      → length node.working_buf ≡ ncnt
      → node.ring.buffer ≡ []
      → kthread_function scale (plenty create) (r ∷ rounds) node groups ≡ fault
  unfolding roll_buffer
  kthread_function-no_ring s slots working none_there =
      let fresh = fresh_slots create node.mask s in
      let row = row_of scale r.hw (field 0 node.working_buf) fresh (r.meanwhile groups) in
      kthread_function-roll s slots (
        rw
          (
            roll_values_any scale r.hw fresh (r.meanwhile groups) node.working_buf working,
            push-refused ncnt nbuf node.ring row none_there (omega arith),
          )
          refl)

-- ===== src/Xstat/Tests/Sampling.antt =====
-- Tests of the sampling thread.
use xstats.Base.{◌-◌, ◌/◌, ◌≡◌, refl, [], ◌∷◌, inr, sub64, arith, false}
use xstats.Kernel.{ok, fault}
use xstats.Ring.Refine.{append}
use xstats.Xstat.Ipmi.Sensors.{ipmi_sensors}
use xstats.Xstat.Node.{Node, Progress, nbuf, sleep_time, roll_buffer, kthread_function}
use xstats.Xstat.Node.Slots.{next_slots, row_of, next_groups, effects_of}
use xstats.Xstat.Node.Sleep.{sleep_time_lem}
use xstats.Xstat.Node.Roll.{IsSampling, samples, field, roll_buffer_lem}
use xstats.Xstat.Node.Lifecycle.{plenty}
use xstats.Xstat.Node.Thread.{Outcome, kthread_function_lem}
use xstats.Xstat.Registry.{Site, new_node}
use xstats.Xstat.Registry.Nodes.{kthread_function-refused}
use xstats.Xstat.Tests.{
  exact_scale, hw, make_event, idle_node, idle_node-IsIdle, slots, node, node-IsSampling, round,
  last_round, site,
}

kthread_function_example :
    (t : Progress) × (kthread_function exact_scale
        (plenty make_event)
        (round ∷ last_round ∷ [])
        idle_node
        ipmi_sensors
      ≡ ok t)
    × Outcome
        (round ∷ last_round ∷ [])
        (record { node = idle_node; groups = ipmi_sensors; effects = []; slept = [] })
        t
kthread_function_example =
    kthread_function_lem exact_scale make_event (round ∷ last_round ∷ []) idle_node ipmi_sensors
      idle_node-IsIdle

roll_buffer_example :
    (node' : Node) × (roll_buffer exact_scale hw node ipmi_sensors
      ≡ ok (
        node',
        (next_groups exact_scale hw ipmi_sensors, effects_of exact_scale hw ipmi_sensors),
      ))
    × IsSampling node' (next_slots exact_scale hw (field 0 node.working_buf) slots)
    × (node'.working_buf ≡ row_of exact_scale hw (field 0 node.working_buf) slots ipmi_sensors)
    × (samples node'
        ≡ append nbuf
            (samples node)
            (row_of exact_scale hw (field 0 node.working_buf) slots ipmi_sensors))
    × (node'.task ≡ node.task)
roll_buffer_example = roll_buffer_lem exact_scale hw node slots ipmi_sensors node-IsSampling

sleep_time_example : sleep_time 1000 8200000 5000000 ≡ 1000 - sub64 8200000 5000000 / 1000000 - 1
sleep_time_example = sleep_time_lem 1000 8200000 5000000 (omega arith) (omega arith)

-- A node that got no ring.
abbrev no_buffer : Site
no_buffer = record site { buffer_allocated = false }

kthread_function-refused_example :
    kthread_function exact_scale
      (plenty make_event)
      (round ∷ [])
      (new_node no_buffer 1)
      ipmi_sensors
    ≡ fault
kthread_function-refused_example =
    kthread_function-refused exact_scale make_event round [] ipmi_sensors no_buffer 1
      (inr (inr refl))

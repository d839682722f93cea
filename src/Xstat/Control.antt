-- ===== src/Xstat/Control.antt =====
-- The module's own state in xstat/xstat.c and its class attributes ctrl and period: start_stat,
-- stop_stat, and the show and store functions. `ctrl_lock` makes each call one step.
pub mod Threads
pub mod Period
use xstats.Base.{
  ℕ, zero, suc, ◌+◌, Bool, true, false, ◌&&◌, List, [], ◌∷◌, ◌++◌, Option, none, some, ltb, leb,
  ◌==◌, if◌then◌else◌,
}
use xstats.Base.Text.{Text, codes, show_ℕ}
use xstats.Kernel.{Result, ok, failed, fault, ◌>>=◌}
use xstats.Xstat.World.{IpmiSensors}
use xstats.Xstat.Node.{Node}

-- `ctrl_on`, `ctrl_period` and `xstat_nodes`; the list has MAX_NUMNODES places.
pub record Module : Type 0 where
  pub ctrl_on : Bool
  pub ctrl_period : ℕ
  pub nodes : List (Option Node)
  pub groups : IpmiSensors

-- A thread bound to the first cpu of a mask and woken.
pub record Wake : Type 0 where
  pub thread : ℕ
  pub mask : List ℕ

-- `create i` is the thread made for node `i`; `none` is an error pointer, kept as a null task.
pub start_node : Option ℕ → Node → Node × List Wake
start_node none node = (record node { task = none }, [])
start_node (some thread) node =
    (record node { task = some thread }, record { thread = thread; mask = node.mask } ∷ [])

unfoldable pub start_nodes :
    (ℕ → Option ℕ) → ℕ → List (Option Node) → List (Option Node) × List Wake
start_nodes create i [] = ([], [])
start_nodes create i (none ∷ nodes) =
    let (nodes', woken) = start_nodes create (i + 1) nodes in (none ∷ nodes', woken)
start_nodes create i (some node ∷ nodes) =
    let (node', wake) = start_node (create i) node in
    let (nodes', woken) = start_nodes create (i + 1) nodes in (some node' ∷ nodes', wake ++ woken)

unfoldable pub start_stat : (ℕ → Option ℕ) → Module → Module × List Wake
start_stat create m =
    let (nodes, woken) = start_nodes create 0 m.nodes in
    if m.ctrl_on then (m, []) else (record m { ctrl_on = true; nodes = nodes }, woken)

-- `kthread_stop(node->task)`: a null task is dereferenced.
pub stop_node : Node → Result (Node × ℕ)
stop_node node = elim node.task [
  | none ↦ fault
  | some thread ↦ ok (record node { task = none }, thread)
]

unfoldable pub stop_nodes : List (Option Node) → Result (List (Option Node) × List ℕ)
stop_nodes [] = ok ([], [])
stop_nodes (none ∷ nodes) = do (nodes', stopped) ← stop_nodes nodes; ok (none ∷ nodes', stopped)
stop_nodes (some node ∷ nodes) = do
  (node', thread) ← stop_node node
  (nodes', stopped) ← stop_nodes nodes
  ok (some node' ∷ nodes', thread ∷ stopped)

-- The threads stopped, in order.
unfoldable pub stop_stat : Module → Result (Module × List ℕ)
stop_stat m =
    let stopping : Result (Module × List ℕ) = (do
      (nodes, stopped) ← stop_nodes m.nodes
      ok (record m { ctrl_on = false; nodes = nodes }, stopped)) in
    if m.ctrl_on then stopping else ok (m, [])

pub show_ctrl_attr : Module → Text
show_ctrl_attr m = if m.ctrl_on then codes "on\n" else codes "off\n"

-- `strncmp(buf, word, strlen(word)) == 0`
pub starts_with : Text → Text → Bool
starts_with buf [] = true
starts_with [] (c ∷ word) = false
starts_with (b ∷ buf) (c ∷ word) = b == c && starts_with buf word

-- Two tests, one after the other; the return value is `count`.
pub store_ctrl_attr : (ℕ → Option ℕ) → Text → ℕ → Module → Result (Module × (List Wake × List ℕ))
store_ctrl_attr create buf count m =
    let (m', woken) =
      if leb 2 count && starts_with buf (codes "on") then start_stat create m else (m, []) in
    if leb 3 count && starts_with buf (codes "off")
    then (stop_stat m' >>= λ (m'', stopped). ok (m'', (woken, stopped)))
    else ok (m', (woken, []))

pub show_period_attr : Module → Text
show_period_attr m = show_ℕ m.ctrl_period ++ codes "\n"

-- `parse` is kstrtoul with base 0: `none` where it returns an error.
pub store_period_attr : (Text → Option ℕ) → Text → Module → Module
store_period_attr parse buf m = elim (parse buf) [
  | none ↦ m
  | some tmp ↦ if ltb 0 tmp && ltb tmp 10000 then record m { ctrl_period = tmp } else m
]

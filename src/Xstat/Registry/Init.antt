-- ===== src/Xstat/Registry/Init.antt =====
-- Loading the module, and its life from loading to unloading.
use xstats.Base.{
  ℕ, zero, suc, ◌+◌, ◌≤◌, ◌<◌, ◌≡◌, refl, inl, inr, false, List, [], ◌∷◌, Option, none, some, arith,
  length, set, replicate, Bool-cases,
}
use xstats.Base.Text.{Text}
use xstats.Kernel.{Result, ok, ◌>>=◌}
use xstats.Xstat.World.{IpmiSensors}
use xstats.Xstat.Node.{Node}
use xstats.Xstat.Control.{Module}
use xstats.Xstat.Control.Threads.{AllStopped}
use xstats.Xstat.Control.Period.{IsControlled, Write, stores}
use xstats.Xstat.Registry.{
  Site, Registered, err, enomem, new_node, register_xstat_node, register_nodes, xstat_init,
  xstat_exit,
}
use xstats.Xstat.Registry.Names.{register_xstat_node-ok}

AllStopped-replicate : (n : ℕ) → AllStopped (replicate n none)
AllStopped-replicate zero = tt
AllStopped-replicate (suc n) = AllStopped-replicate n

AllStopped-set :
    (nodes : List (Option Node)) (i : ℕ) (node : Node)
    → node.task ≡ none
    → AllStopped nodes
    → AllStopped (set nodes i (some node))
AllStopped-set [] i node e h = tt
AllStopped-set (none ∷ nodes) zero node e h = (e, h)
AllStopped-set (some other ∷ nodes) zero node e h = (e, h.1)
AllStopped-set (none ∷ nodes) (suc i) node e h = AllStopped-set nodes i node e h
AllStopped-set (some other ∷ nodes) (suc i) node e h = (h.0, AllStopped-set nodes i node e h.1)

new_node-task : (site : Site) (nid : ℕ) → (new_node site nid).task ≡ none
unfolding new_node
new_node-task site nid = refl

-- The module is off, at its first period, with no thread.
record IsLoaded (m : Module) : Type 0 where
  off : m.ctrl_on ≡ false
  period : m.ctrl_period ≡ 1000
  idle : AllStopped m.nodes

register_xstat_node-IsLoaded :
    (site : Site) (nid : ℕ) (m : Module)
    → nid < 100
    → IsLoaded m
    → (ret : Registered) × (m' : Module) × (register_xstat_node site nid m ≡ ok (ret, m'))
      × IsLoaded m'
register_xstat_node-IsLoaded site nid m h v = elim (Bool-cases site.online) [
  | inr offline ↦ (err 0, m, unfold register_xstat_node in rw offline refl, v)
  | inl online ↦ elim (Bool-cases site.node_allocated) [
    | inr refused ↦ (enomem, m, unfold register_xstat_node in rw (online, refused) refl, v)
    | inl given ↦ (
      err site.reset_err,
      record m { nodes = set m.nodes nid (some (new_node site nid)) },
      register_xstat_node-ok site nid m online given h,
      record {
        off = v.off;
        period = v.period;
        idle = AllStopped-set m.nodes nid (new_node site nid) (new_node-task site nid) v.idle;
      },
    )
  ]
]

register_nodes-IsLoaded :
    (sites : List Site) (nid : ℕ) (m : Module)
    → nid + length sites ≤ 100
    → IsLoaded m
    → (m' : Module) × (register_nodes sites nid m ≡ ok m') × IsLoaded m'
unfolding register_nodes
register_nodes-IsLoaded [] nid m h v = (m, refl, v)
register_nodes-IsLoaded (site ∷ sites) nid m h v =
    let (ret, mid, first, v') = register_xstat_node-IsLoaded site nid m (omega arith) v in
    let (m', rest, v'') = register_nodes-IsLoaded sites (nid + 1) mid (omega arith) v' in
    (m', rw (first, rest) refl, v'')

-- With at most a hundred nodes, loading succeeds whatever memory is refused, returns what
-- class_register returned, and leaves the module off, without threads, its period in range.
pub xstat_init_lem :
    (max_numnodes : ℕ) (sites : List Site) (registered : ℕ) (groups : IpmiSensors)
    → length sites ≤ 100
    → (m : Module) × (xstat_init max_numnodes sites registered groups ≡ ok (registered, m))
      × (m.ctrl_on ≡ false)
      × IsControlled m
unfolding xstat_init
xstat_init_lem max_numnodes sites registered groups h =
    let empty : Module = record {
      ctrl_on = false;
      ctrl_period = 1000;
      nodes = replicate max_numnodes none;
      groups = groups;
    } in
    let clean : IsLoaded empty = record {
      off = refl;
      period = refl;
      idle = AllStopped-replicate max_numnodes;
    } in
    let (m, run, v) = register_nodes-IsLoaded sites 0 empty (omega arith) clean in
    (
      m,
      rw run refl,
      v.off,
      record { period_range = rw v.period (omega arith); tasks = inr (v.off, v.idle) },
    )

-- The calls that follow loading, by what it returned: the kernel takes a module of which loading failed
-- away, without a call of xstat_exit.
abbrev pub after_init :
    (Text → Option ℕ) → List Write → (ret : ℕ) → Module → Result (Module × (List ℕ × List ℕ))
after_init parse ws zero m = do m' ← stores parse ws m; xstat_exit m'
after_init parse ws (suc code) m = ok (m, ([], []))

-- The calls of a module's life: loaded, and where that succeeds written to and unloaded.
abbrev pub life :
    (Text → Option ℕ)
    → ℕ
    → List Site
    → ℕ
    → IpmiSensors
    → List Write
    → Result (Module × (List ℕ × List ℕ))
life parse max_numnodes sites registered groups ws = do
  (ret, m) ← xstat_init max_numnodes sites registered groups
  after_init parse ws ret m

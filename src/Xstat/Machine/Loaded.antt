-- ===== src/Xstat/Machine/Loaded.antt =====
-- The module as xstat_init leaves it.
use xstats.Base.{
  ℕ, zero, suc, ◌+◌, ◌≤◌, ◌<◌, ◌≡◌, refl, sym, ◌⊎◌, inl, inr, false, Bool-cases, List, [], ◌∷◌,
  Option, none, some, arith, length, set, replicate, All,
}
use mathlib.Core.Path.{subst}
use xstats.Kernel.{ok}
use xstats.Xstat.World.{IpmiSensors}
use xstats.Xstat.Ipmi.Sensors.{AreSensors}
use xstats.Xstat.Node.{Node}
use xstats.Xstat.Control.{Module}
use xstats.Xstat.Registry.{
  Site, Registered, err, enomem, node_at, new_node, register_xstat_node, register_nodes, xstat_init,
}
use xstats.Xstat.Registry.Names.{register_xstat_node-ok}
use xstats.Xstat.Registry.Nodes.{IsServed}
use xstats.Xstat.Life.{idle}
use xstats.Xstat.Life.Delivers.{new_node-IsAlive}
use xstats.Xstat.Machine.{State, view}
use xstats.Xstat.Machine.Laws.{IsPlace, IsOperating}

-- A node that is not online, one that is refused, or one that gets all its memory.
abbrev pub IsReady : Site → Type 0
IsReady site = (site.online ≡ false) ⊎ ((site.node_allocated ≡ false) ⊎ IsServed site)

abbrev pub loaded : Module → State
loaded m = record { module_state = m; phases = λ j. idle }

-- The module is off, and its nodes are new.
record IsNew (groups : IpmiSensors) (m : Module) : Type 0 where
  off : m.ctrl_on ≡ false
  shared : m.groups ≡ groups
  places : (j : ℕ) → IsPlace false groups idle (node_at m.nodes j)

node_at-replicate : (n j : ℕ) → node_at (replicate n none) j ≡ none
node_at-replicate zero j = refl
node_at-replicate (suc n) zero = refl
node_at-replicate (suc n) (suc j) = node_at-replicate n j

node_at-set_cases :
    (nodes : List (Option Node)) (i j : ℕ) (o : Option Node)
    → (node_at (set nodes i o) j ≡ o) ⊎ (node_at (set nodes i o) j ≡ node_at nodes j)
node_at-set_cases [] i j o = inr refl
node_at-set_cases (p ∷ nodes) zero zero o = inl refl
node_at-set_cases (p ∷ nodes) zero (suc j) o = inr refl
node_at-set_cases (p ∷ nodes) (suc i) zero o = inr refl
node_at-set_cases (p ∷ nodes) (suc i) (suc j) o = node_at-set_cases nodes i j o

register_xstat_node-IsNew :
    (groups : IpmiSensors) (site : Site) (nid : ℕ) (m : Module)
    → AreSensors groups
    → IsReady site
    → nid < 100
    → IsNew groups m
    → (ret : Registered) × (m' : Module) × (register_xstat_node site nid m ≡ ok (ret, m'))
      × IsNew groups m'
register_xstat_node-IsNew groups site nid m sensors (inl offline) h v =
    (err 0, m, unfold register_xstat_node in rw offline refl, v)
register_xstat_node-IsNew groups site nid m sensors (inr (inl refused)) h v =
    elim (Bool-cases site.online) [
      | inr offline ↦ (err 0, m, unfold register_xstat_node in rw offline refl, v)
      | inl online ↦ (enomem, m, unfold register_xstat_node in rw (online, refused) refl, v)
    ]
register_xstat_node-IsNew groups site nid m sensors (inr (inr served)) h v =
    let node : Node = new_node site nid in
    let alive = new_node-IsAlive (view groups idle node) site nid refl refl served sensors in
    (
      err site.reset_err,
      record m { nodes = set m.nodes nid (some node) },
      register_xstat_node-ok site nid m served.online served.node_allocated h,
      record {
        off = v.off;
        shared = v.shared;
        places = λ j. elim (node_at-set_cases m.nodes nid j (some node)) [
          | inl e ↦ subst (IsPlace false groups idle) (sym e) (alive, tt)
          | inr e ↦ subst (IsPlace false groups idle) (sym e) (v.places j)
        ];
      },
    )

register_nodes-IsNew :
    (groups : IpmiSensors) (sites : List Site) (nid : ℕ) (m : Module)
    → AreSensors groups
    → All IsReady sites
    → nid + length sites ≤ 100
    → IsNew groups m
    → (m' : Module) × (register_nodes sites nid m ≡ ok m') × IsNew groups m'
unfolding register_nodes
register_nodes-IsNew groups [] nid m sensors r h v = (m, refl, v)
register_nodes-IsNew groups (site ∷ sites) nid m sensors r h v =
    let (ret, mid, first, v') =
      register_xstat_node-IsNew groups site nid m sensors r.0 (omega arith) v in
    let (m', rest, v'') =
      register_nodes-IsNew groups sites (nid + 1) mid sensors r.1 (omega arith) v' in
    (m', rw (first, rest) refl, v'')

-- With at most a hundred nodes, each of them refused, not online or with all its memory, loading leaves
-- the module ready to work.
pub xstat_init-IsOperating :
    (max_numnodes : ℕ) (sites : List Site) (registered : ℕ) (groups : IpmiSensors)
    → length sites ≤ 100
    → All IsReady sites
    → AreSensors groups
    → (m : Module) × (xstat_init max_numnodes sites registered groups ≡ ok (registered, m))
      × IsOperating (loaded m)
unfolding xstat_init
xstat_init-IsOperating max_numnodes sites registered groups h r sensors =
    let empty : Module = record {
      ctrl_on = false;
      ctrl_period = 1000;
      nodes = replicate max_numnodes none;
      groups = groups;
    } in
    let new : IsNew groups empty = record {
      off = refl;
      shared = refl;
      places = λ j. subst (IsPlace false groups idle) (sym (node_at-replicate max_numnodes j)) tt;
    } in
    let (m, run, v) = register_nodes-IsNew groups sites 0 empty sensors r (omega arith) new in
    (
      m,
      rw run refl,
      record { places = λ j. rw (v.off, v.shared) (v.places j); are_sensors = rw v.shared sensors },
    )

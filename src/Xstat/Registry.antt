-- ===== src/Xstat/Registry.antt =====
-- The end of xstat/xstat.c: register_xstat_node, unregister_xstat_node, xstat_init and xstat_exit.
pub mod Nodes
pub mod Names
pub mod Exit
pub mod Init
use xstats.Base.{
  ℕ, zero, suc, ◌+◌, ◌*◌, Bool, true, false, List, [], ◌∷◌, ◌++◌, Option, none, some, get_elem?,
  set, replicate, length, leb, if◌then◌else◌,
}
use xstats.Base.Text.{Text, codes, show_ℕ}
use xstats.Kernel.{Result, ok, failed, fault, ◌>>=◌}
use xstats.Ring.{Ring}
use xstats.Xstat.World.{IpmiSensors, Ctx, null}
use xstats.Xstat.Ipmi
use xstats.Xstat.Node.{Node, ncnt, nbuf}
use xstats.Xstat.Control.{Module, stop_stat}

-- STRBUFLEN
abbrev pub strbuflen : ℕ
strbuflen = 8

-- What registering the node `nid` meets: whether it is online, its cpus, whether each kzalloc
-- succeeds, and what the three calls of class_create_file return, 0 or an error.
pub record Site : Type 0 where
  pub online : Bool
  pub cpus : List ℕ
  pub node_allocated : Bool
  pub ctxs_allocated : Bool
  pub buffer_allocated : Bool
  pub working_allocated : Bool
  pub stat_err : ℕ
  pub last_err : ℕ
  pub reset_err : ℕ

-- `kzalloc` of `n` elements, each zero. A null pointer is an array of no element.
abbrev pub kzalloc {ℓ} : {A : Type ℓ} → Bool → ℕ → A → List A
kzalloc allocated n z = if allocated then replicate n z else []

-- The names that sprintf writes, without the final zero.
abbrev pub stat_name : ℕ → Text
stat_name nid = codes "stat" ++ show_ℕ nid

abbrev pub last_name : ℕ → Text
last_name nid = codes "last" ++ show_ℕ nid

abbrev pub reset_name : ℕ → Text
reset_name nid = codes "reset" ++ show_ℕ nid

-- `sprintf` to one of the names of the node: a text that does not fit with its final zero is written
-- beyond the array.
abbrev pub sprintf : Text → Result Text
sprintf s = if leb (length s + 1) strbuflen then ok s else fault

-- The node as it is filled in.
unfoldable pub new_node : Site → ℕ → Node
new_node site nid = record {
  id = nid;
  task = none;
  mask = site.cpus;
  ctxs = kzalloc site.ctxs_allocated ncnt null;
  working_buf = kzalloc site.working_allocated ncnt 0;
  ring = record {
    buffer = kzalloc site.buffer_allocated (ncnt * nbuf) 0;
    buffer_base = 0;
    buffer_next = 0;
    buffer_size = 0;
  };
}

-- `err`, of which only the last assignment is returned, and -ENOMEM where the node is refused; the
-- node's place in `xstat_nodes` is written before the names.
pub data Registered : Type 0 where
  err : ℕ → Registered
  enomem : Registered

unfoldable pub register_xstat_node : Site → ℕ → Module → Result (Registered × Module)
register_xstat_node site nid m =
    let naming : Result (Registered × Module) = (do
      _ ← sprintf (stat_name nid)
      _ ← sprintf (last_name nid)
      _ ← sprintf (reset_name nid)
      ok (err site.reset_err, record m { nodes = set m.nodes nid (some (new_node site nid)) })) in
    if site.online then (if site.node_allocated then naming else ok (enomem, m)) else ok (err 0, m)

-- `xstat_nodes[nid]`, of one of its MAX_NUMNODES places.
abbrev pub node_at : List (Option Node) → ℕ → Option Node
node_at nodes nid = elim (get_elem? nodes nid) [ none ↦ none | some place ↦ place ]

-- The node given back, if there was one, and the place cleared.
pub unregister_xstat_node : ℕ → Module → Module × List ℕ
unregister_xstat_node nid m = elim (node_at m.nodes nid) [
  | none ↦ (m, [])
  | some node ↦ (record m { nodes = set m.nodes nid none }, node.id ∷ [])
]

-- The loops over the nodes: `sites` are those of `nid` and the following, in order.
unfoldable pub register_nodes : List Site → ℕ → Module → Result Module
register_nodes [] nid m = ok m
register_nodes (site ∷ sites) nid m = do
  (ret, m') ← register_xstat_node site nid m
  register_nodes sites (nid + 1) m'

pub unregister_nodes : (count nid : ℕ) → Module → Module × List ℕ
unregister_nodes zero nid m = (m, [])
unregister_nodes (suc count) nid m =
    let (m', first) = unregister_xstat_node nid m in
    let (m'', others) = unregister_nodes count (nid + 1) m' in (m'', first ++ others)

-- `groups` are the static sensors, and the return value is that of class_register.
unfoldable pub xstat_init :
    (max_numnodes : ℕ) → List Site → (registered : ℕ) → IpmiSensors → Result (ℕ × Module)
xstat_init max_numnodes sites registered groups = do
  m ← register_nodes sites 0 (record {
    ctrl_on = false;
    ctrl_period = 1000;
    nodes = replicate max_numnodes none;
    groups = groups;
  })
  ok (registered, m)

-- What is left of the module, the nodes given back and the users destroyed.
pub xstat_exit : Module → Result (Module × (List ℕ × List ℕ))
xstat_exit m = do
  (m', stopped) ← stop_stat m
  let (m'', freed) = unregister_nodes (length m'.nodes) 0 m'
  let (groups, destroyed) = Ipmi.exit m''.groups
  ok (record m'' { groups = groups }, (freed, destroyed))

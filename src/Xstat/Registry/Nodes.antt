-- ===== src/Xstat/Registry/Nodes.antt =====
-- Registered nodes, and the end of the module.
use xstats.Base.{
  ℕ, zero, suc, ◌*◌, ◌<◌, ◌≡◌, ◌≢◌, refl, ap, ◌⊎◌, inl, inr, true, false, List, [], ◌∷◌, Option,
  none, some, arith, length, set, length-replicate, Bool-cases,
}
use xstats.Kernel.{ok, fault}
use xstats.Xstat.World.{null, IpmiSensors, PerfEventConfig}
use xstats.Xstat.Node.{Node, ncnt, nbuf, Round, kthread_function}
use xstats.Xstat.Node.Lifecycle.{IsIdle, Idle, idle_slots, plenty}
use xstats.Xstat.Node.Roll.{samples}
use xstats.Xstat.Control.{Module}
use xstats.Xstat.Node.Refused.{
  kthread_function-no_slots, kthread_function-no_working, kthread_function-no_ring,
}
use xstats.Xstat.Registry.Names.{register_xstat_node-ok}
use xstats.Xstat.Registry.{Site, err, node_at, new_node, register_xstat_node}

-- All the memory that a node asks for.
pub record IsServed (site : Site) : Type 0 where
  pub online : site.online ≡ true
  pub node_allocated : site.node_allocated ≡ true
  pub ctxs_allocated : site.ctxs_allocated ≡ true
  pub buffer_allocated : site.buffer_allocated ≡ true
  pub working_allocated : site.working_allocated ≡ true

node_at-set_self :
    (nodes : List (Option Node)) (i : ℕ) (o : Option Node)
    → i < length nodes
    → node_at (set nodes i o) i ≡ o
node_at-set_self [] i o h = absurd (omega arith)
node_at-set_self (p ∷ nodes) zero o h = refl
node_at-set_self (p ∷ nodes) (suc i) o h = node_at-set_self nodes i o (omega arith)

pub node_at-set_ne :
    (nodes : List (Option Node)) (i j : ℕ) (o : Option Node)
    → j ≢ i
    → node_at (set nodes i o) j ≡ node_at nodes j
node_at-set_ne [] i j o h = refl
node_at-set_ne (p ∷ nodes) zero zero o h = absurd (h refl)
node_at-set_ne (p ∷ nodes) zero (suc j) o h = refl
node_at-set_ne (p ∷ nodes) (suc i) zero o h = refl
node_at-set_ne (p ∷ nodes) (suc i) (suc j) o h = node_at-set_ne nodes i j o (λ e. h (ap suc e))

abbrev zeroed : Idle
zeroed = record {
  before = 0;
  time = 0;
  joules = 0;
  slot_cyc = null;
  slot_inst = null;
  slot_llcref = null;
  slot_llcmiss = null;
  slot_br = null;
  slot_brmiss = null;
  slot_l2lin = null;
  slot_a = null;
  slot_b = null;
  slot_misc = null;
}

pub new_node-IsIdle : (site : Site) (nid : ℕ) → IsServed site → IsIdle (new_node site nid)
unfolding new_node
new_node-IsIdle site nid v = record {
  idle = zeroed;
  slots_are = rw v.ctxs_allocated refl;
  working = rw v.working_allocated refl;
  in_order = record {
    storage = rw v.buffer_allocated (length-replicate {A = ℕ} (ncnt * nbuf) 0);
    base_in = omega arith;
    size_in = omega arith;
    next_at = refl;
  };
}

-- Registering an online node below 100 returns what creating the last file returned; the node is
-- ready for its thread, holds no row, and the other places are as they were, if all memory is there.
pub register_xstat_node-IsIdle :
    (site : Site) (nid : ℕ) (m : Module)
    → IsServed site
    → nid < 100
    → nid < length m.nodes
    → (m' : Module) × (node : Node) × (register_xstat_node site nid m ≡ ok (err site.reset_err, m'))
      × (node_at m'.nodes nid ≡ some node)
      × IsIdle node
      × (samples node ≡ [])
      × (node.task ≡ none)
      × ((j : ℕ) → j ≢ nid → node_at m'.nodes j ≡ node_at m.nodes j)
register_xstat_node-IsIdle site nid m v h placed = (
  record m { nodes = set m.nodes nid (some (new_node site nid)) },
  new_node site nid,
  register_xstat_node-ok site nid m v.online v.node_allocated h,
  node_at-set_self m.nodes nid (some (new_node site nid)) placed,
  new_node-IsIdle site nid v,
  unfold new_node in refl,
  unfold new_node in refl,
  λ j other. node_at-set_ne m.nodes nid j (some (new_node site nid)) other,
)

-- A thread started on a registered node that was refused its slots, its working buffer or its ring
-- goes through a null pointer by the end of its first round, even if all goes well from then on.
pub kthread_function-refused :
    (scale : ℕ → ℕ → ℕ → ℕ) (create : PerfEventConfig → ℕ → Option ℕ) (r : Round)
    (rounds : List Round) (groups : IpmiSensors) (site : Site) (nid : ℕ)
    → (site.ctxs_allocated ≡ false)
      ⊎ ((site.working_allocated ≡ false) ⊎ (site.buffer_allocated ≡ false))
    → kthread_function scale (plenty create) (r ∷ rounds) (new_node site nid) groups ≡ fault
kthread_function-refused scale create r rounds groups site nid h =
    let node : Node = new_node site nid in
    elim (Bool-cases site.ctxs_allocated) [
      | inr no_ctxs ↦
          kthread_function-no_slots scale create r rounds groups node
            (unfold new_node in rw no_ctxs refl)
      | inl ctxs ↦
          let slots : node.ctxs ≡ idle_slots zeroed = unfold new_node in rw ctxs refl in
          elim (Bool-cases site.working_allocated) [
            | inr no_working ↦
                kthread_function-no_working scale create r rounds groups node zeroed slots
                  (unfold new_node in rw no_working refl)
            | inl working ↦
                let no_buffer : site.buffer_allocated ≡ false = ground arith in
                kthread_function-no_ring scale create r rounds groups node zeroed slots
                  (unfold new_node in rw working refl) (unfold new_node in rw no_buffer refl)
          ]
    ]

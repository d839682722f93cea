-- ===== src/Xstat/Registry/Exit.antt =====
-- The end of the module.
use xstats.Base.{
  ℕ, zero, suc, ◌+◌, ◌≤◌, ◌<◌, ◌≡◌, refl, ◌∙◌, inl, inr, false, List, [], ◌∷◌, Option, none, arith,
  length, set, length-set, Option-cases, Bool-cases, ltb, ◌==◌, ==_iff,
}
use xstats.Kernel.{ok}
use xstats.Xstat.World.{Group, group}
use xstats.Xstat.Ipmi
use xstats.Xstat.Ipmi.Receive.{exit_clears}
use xstats.Xstat.Node.{Node}
use xstats.Xstat.Control.{Module}
use xstats.Xstat.Control.Period.{IsControlled, stop_stat-IsControlled}
use xstats.Xstat.Registry.{node_at, unregister_xstat_node, unregister_nodes, xstat_exit}

node_at-set-none : (nodes : List (Option Node)) (i : ℕ) → node_at (set nodes i none) i ≡ none
node_at-set-none [] i = refl
node_at-set-none (p ∷ nodes) zero = refl
node_at-set-none (p ∷ nodes) (suc i) = node_at-set-none nodes i

node_at-set_keeps :
    (nodes : List (Option Node)) (i j : ℕ)
    → node_at nodes j ≡ none
    → node_at (set nodes i none) j ≡ none
node_at-set_keeps [] i j h = refl
node_at-set_keeps (p ∷ nodes) zero zero h = refl
node_at-set_keeps (p ∷ nodes) zero (suc j) h = h
node_at-set_keeps (p ∷ nodes) (suc i) zero h = h
node_at-set_keeps (p ∷ nodes) (suc i) (suc j) h = node_at-set_keeps nodes i j h

node_at-none : (nodes : List (Option Node)) (j : ℕ) → length nodes ≤ j → node_at nodes j ≡ none
node_at-none [] j h = refl
node_at-none (p ∷ nodes) zero h = absurd (omega arith)
node_at-none (p ∷ nodes) (suc j) h = node_at-none nodes j (omega arith)

-- What giving back a node leaves.
record Left (m m' : Module) : Type 0 where
  as_long : length m'.nodes ≡ length m.nodes
  same_switch : m'.ctrl_on ≡ m.ctrl_on
  still_none : (j : ℕ) → node_at m.nodes j ≡ none → node_at m'.nodes j ≡ none

unregister_xstat_node-Left :
    (nid : ℕ) (m : Module)
    → let m' = (unregister_xstat_node nid m).0 in Left m m' × (node_at m'.nodes nid ≡ none)
unfolding unregister_xstat_node
unregister_xstat_node-Left nid m = elim (Option-cases (node_at m.nodes nid)) [
  | inl e ↦
      rw (e, unregister_xstat_node)
        (record { as_long = refl; same_switch = refl; still_none = λ j h. h }, e)
  | inr (node, e) ↦
      rw (e, unregister_xstat_node)
        (
          record {
            as_long = length-set m.nodes nid none;
            same_switch = refl;
            still_none = node_at-set_keeps m.nodes nid;
          },
          node_at-set-none m.nodes nid,
        )
]

unregister_nodes-Left :
    (count nid : ℕ) (m : Module)
    → let m' = (unregister_nodes count nid m).0 in
      Left m m' × ((j : ℕ) → nid ≤ j → j < nid + count → node_at m'.nodes j ≡ none)
unfolding unregister_nodes
unregister_nodes-Left zero nid m = (
  record { as_long = refl; same_switch = refl; still_none = λ j h. h },
  λ j lo hi. absurd (omega arith),
)
unregister_nodes-Left (suc count) nid m =
    let mid = (unregister_xstat_node nid m).0 in
    let (first, gone) = unregister_xstat_node-Left nid m in
    let (rest, cleared) = unregister_nodes-Left count (nid + 1) mid in
    (
      record {
        as_long = rest.as_long ∙ first.as_long;
        same_switch = rest.same_switch ∙ first.same_switch;
        still_none = λ j h. rest.still_none j (first.still_none j h);
      },
      λ j lo hi. elim (Bool-cases (j == nid)) [
        | inl here ↦ rest.still_none j (rw ((==_iff j nid).0 here) gone)
        | inr later ↦ cleared j (ground arith) (omega arith)
      ],
    )

-- Unloading a module whose nodes all have threads while it is on, and none while it is off, does not
-- fault; it leaves the module off, no place with a node, and no sensor group with a user.
pub xstat_exit_lem :
    (m : Module)
    → IsControlled m
    → (m' : Module) × (given_back : List ℕ × List ℕ) × (xstat_exit m ≡ ok (m', given_back))
      × (m'.ctrl_on ≡ false)
      × ((j : ℕ) → node_at m'.nodes j ≡ none)
      × ((g : Group) → (group g m'.groups).user ≡ none)
unfolding xstat_exit
xstat_exit_lem m v =
    let (halted, stopped, run, _, off) = stop_stat-IsControlled m v in
    let (left, cleared) = unregister_nodes-Left (length halted.nodes) 0 halted in
    let (emptied, freed) = unregister_nodes (length halted.nodes) 0 halted in
    let (groups, destroyed) = Ipmi.exit emptied.groups in
    (
      record emptied { groups = groups },
      (freed, destroyed),
      rw run refl,
      left.same_switch ∙ off,
      λ j. elim (Bool-cases (ltb j (length halted.nodes))) [
        | inl inside ↦ cleared j (omega arith) (ground arith)
        | inr outside ↦ left.still_none j (node_at-none halted.nodes j (ground arith))
      ],
      exit_clears emptied.groups,
    )

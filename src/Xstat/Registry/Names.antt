-- ===== src/Xstat/Registry/Names.antt =====
-- The names of a node's attributes.
use xstats.Base.{
  ℕ, ◌≤◌, ◌<◌, ◌≡◌, refl, sym, ◌∙◌, Bool-cases, ltb→lt, true, arith, length, ltb, ◌↔◌, inl, inr,
  ◌≢◌, some, set,
}
use xstats.Base.Text.{Text, length-show_ℕ_small, length-show_ℕ_large}
use xstats.Kernel.{ok, fault}
use xstats.Xstat.Control.{Module}
use xstats.Xstat.Registry.{
  Site, err, sprintf, stat_name, last_name, reset_name, new_node, register_xstat_node,
}

sprintf-ok : (s : Text) → length s ≤ 7 → sprintf s ≡ ok s
sprintf-ok s h = ground arith

sprintf-fault : (s : Text) → 8 ≤ length s → sprintf s ≡ fault
sprintf-fault s h = ground arith

pub register_xstat_node-ok :
    (site : Site) (nid : ℕ) (m : Module)
    → site.online ≡ true
    → site.node_allocated ≡ true
    → nid < 100
    → register_xstat_node site nid m
      ≡ ok (err site.reset_err, record m { nodes = set m.nodes nid (some (new_node site nid)) })
unfolding register_xstat_node
register_xstat_node-ok site nid m on memory h =
    let small = length-show_ℕ_small nid h in
    rw
      (
        on,
        memory,
        sprintf-ok (stat_name nid) (omega arith),
        sprintf-ok (last_name nid) (omega arith),
        sprintf-ok (reset_name nid) (omega arith),
      )
      refl

register_xstat_node-overflow :
    (site : Site) (nid : ℕ) (m : Module)
    → site.online ≡ true
    → site.node_allocated ≡ true
    → 100 ≤ nid
    → register_xstat_node site nid m ≡ fault
unfolding register_xstat_node
register_xstat_node-overflow site nid m on memory h =
    let large = length-show_ℕ_large nid h in
    rw (on, memory, sprintf-fault (reset_name nid) (omega arith)) (ground arith)

ok-fault {ℓ} : {A : Type ℓ} {a : A} → ok a ≢ fault
ok-fault e = cc

-- Registering an online node for which there is memory fills in the names of its attributes: below
-- 100 they fit, and from 100 on one is written beyond its eight bytes.
pub register_xstat_node-names :
    (site : Site) (nid : ℕ) (m : Module)
    → site.online ≡ true
    → site.node_allocated ≡ true
    → (register_xstat_node site nid m ≡ fault) ↔ (100 ≤ nid)
unfolding register_xstat_node
register_xstat_node-names site nid m on memory = (
  λ bad. elim (Bool-cases (ltb nid 100)) [
    | inl small ↦
        absurd (
          ok-fault (sym (register_xstat_node-ok site nid m on memory (ltb→lt nid 100 small)) ∙ bad))
    | inr large ↦ ground arith
  ],
  register_xstat_node-overflow site nid m on memory,
)

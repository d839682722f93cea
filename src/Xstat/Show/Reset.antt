-- ===== src/Xstat/Show/Reset.antt =====
-- store_reset_attr.
use xstats.Base.{ℕ, zero, suc, ◌<◌, ◌≡◌, refl, ◌⊎◌, inl, inr, [], arith, lt→ltb}
use xstats.Ring.Refine.{IsValid, reset_refines}
use xstats.Xstat.Node.{Node, ncnt, nbuf}
use xstats.Xstat.Node.Roll.{samples}
use xstats.Xstat.Show.{store_reset_attr}

-- A write of at least one byte leaves a node's ring in order and empty, and nothing else changed; an
-- empty write changes nothing.
pub store_reset_attr_lem :
    (node : Node) (count : ℕ)
    → IsValid ncnt nbuf node.ring
    → ((count ≡ 0) × (store_reset_attr node count ≡ node))
      ⊎ ((0 < count)
          × IsValid ncnt nbuf (store_reset_attr node count).ring
          × (samples (store_reset_attr node count) ≡ [])
          × (record (store_reset_attr node count) { ring = node.ring } ≡ node))
unfolding store_reset_attr
store_reset_attr_lem node zero v = inl (refl, refl)
store_reset_attr_lem node (suc count) v =
    let (valid, empty) = reset_refines ncnt nbuf node.ring v in
    rw (lt→ltb 0 (suc count) (omega arith)) (inr (omega arith, valid, empty, refl))

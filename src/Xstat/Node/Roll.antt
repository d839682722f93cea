-- ===== src/Xstat/Node/Roll.antt =====
-- roll_buffer: one round of sampling of a node.
use xstats.Base.{ℕ, ◌≡◌, refl, sym, ap, ◌∙◌, List, [], ◌∷◌, arith, sub64, length, get_or}
use xstats.Kernel.{ok}
use xstats.Ring.Refine.{IsValid, contents, append, push_refines}
use xstats.Xstat.World.{Hardware, IpmiSensors, Effect}
use xstats.Xstat.Clock.{get_time}
use xstats.Xstat.Table.{node_counters}
use xstats.Xstat.Node.{Node, ncnt, nbuf, roll_values, roll_buffer}
use xstats.Xstat.Node.Slots.{
  Slots, slots_of, next_slots, row_of, next_groups, effects_of, roll_values_lem,
}

-- A node whose thread samples: its slots are those of `s`, and its ring is in order.
pub record IsSampling (node : Node) (s : Slots) : Type 0 where
  pub slots_are : node.ctxs ≡ slots_of s
  pub working : length node.working_buf ≡ ncnt
  pub in_order : IsValid ncnt nbuf node.ring

-- `working_buf[i]`
abbrev pub field : ℕ → List ℕ → ℕ
field i row = get_or row i 0

-- The rows that a node holds, the oldest first.
abbrev pub samples : Node → List (List ℕ)
samples node = contents ncnt nbuf node.ring

module _ (scale : ℕ → ℕ → ℕ → ℕ) (hw : Hardware) where
  pub roll_values_any :
      (s : Slots) (g : IpmiSensors) (last : List ℕ)
      → length last ≡ 16
      → roll_values scale hw node_counters 0 last
          (record { ctxs = slots_of s; groups = g; effects = [] })
        ≡ ok (
          row_of scale hw (field 0 last) s g,
          record {
            ctxs = slots_of (next_slots scale hw (field 0 last) s);
            groups = next_groups scale hw g;
            effects = effects_of scale hw g;
          },
        )
  roll_values_any s g (a ∷ b ∷ c ∷ d ∷ e ∷ f ∷ h ∷ i ∷ j ∷ k ∷ l ∷ m ∷ n ∷ o ∷ p ∷ q ∷ []) eq =
      roll_values_lem scale hw s g a b c d e f h i j k l m n o p q
  roll_values_any s g last eq = absurd (omega arith)

  -- A round on a sampling node succeeds: it appends one row to the log of the node's last 256, the
  -- values of the counters in the order of the table, and the node goes on sampling from that row, with the same thread.
  pub roll_buffer_lem :
      (node : Node) (s : Slots) (g : IpmiSensors)
      → IsSampling node s
      → (node' : Node) × (roll_buffer scale hw node g
          ≡ ok (node', (next_groups scale hw g, effects_of scale hw g)))
        × IsSampling node' (next_slots scale hw (field 0 node.working_buf) s)
        × (node'.working_buf ≡ row_of scale hw (field 0 node.working_buf) s g)
        × (samples node'
            ≡ append nbuf (samples node) (row_of scale hw (field 0 node.working_buf) s g))
        × (node'.task ≡ node.task)
  unfolding roll_buffer
  roll_buffer_lem node s g v =
      let row = row_of scale hw (field 0 node.working_buf) s g in
      let (ring, stored, valid, log) = push_refines ncnt nbuf node.ring row v.in_order refl in
      (
        record node {
          ctxs = slots_of (next_slots scale hw (field 0 node.working_buf) s);
          working_buf = row;
          ring = ring;
        },
        rw (v.slots_are, roll_values_any s g node.working_buf v.working, stored) refl,
        record { slots_are = refl; working = refl; in_order = valid },
        refl,
        log,
        refl,
      )

  -- A round on a sampling node succeeds; the interval of its row is the time of the row less that of
  -- the row before it, which is kept in `working_buf`: no other counter disturbs the two slots.
  pub roll_interval :
      (node : Node) (s : Slots) (g : IpmiSensors)
      → IsSampling node s
      → (node' : Node) × (g' : IpmiSensors) × (effects : List Effect) × (roll_buffer scale hw node g
          ≡ ok (node', (g', effects)))
        × (field 0 node'.working_buf ≡ get_time hw)
        × (field 1 node'.working_buf ≡ sub64 (field 0 node'.working_buf) (field 0 node.working_buf))
  roll_interval node s g v =
      let (node', run, next, row, log, task) = roll_buffer_lem node s g v in
      (
        node',
        next_groups scale hw g,
        effects_of scale hw g,
        run,
        ap (field 0) row,
        ap (field 1) row ∙ ap (λ t. sub64 t (field 0 node.working_buf)) (sym (ap (field 0) row)),
      )

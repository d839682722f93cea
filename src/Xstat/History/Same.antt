-- ===== src/Xstat/History/Same.antt =====
-- The groups of sensors stay the same sensors, whatever they read.
use mathlib.Core.Path.{fun_ext, subst}
use xstats.Base.{ℕ, ◌≤◌, ◌+◌, ◌≡◌, refl, sym, ap, ap₂, List, [], ◌∷◌, ◌++◌, length, All, get_or}
use xstats.Base.Text.{codes}
use xstats.Xstat.World.{
  Hardware, IpmiSensors, IpmiSensorsCtx, Group, group_a, group_b, misc, group, set_group,
}
use xstats.Xstat.Ipmi.Sensors.{AreSensors, IsGroup, IsSensor}
use xstats.Xstat.Ipmi.Configs.{configs, restart-ctxs, sensors_text_same}
use xstats.Xstat.Table.{
  Counter, ts, intv, temp, energy, eunit, perflmt, event, sensors, node_counters,
}
use xstats.Xstat.Node.Slots.{next_groups}
use xstats.Xstat.Show.Line.{item_text, items_text, comma_after, line_text}

-- The same sensors, whatever they read.
abbrev pub Same : IpmiSensors → IpmiSensors → Type 0
Same a b = (g : Group) → configs (group g a).ctxs ≡ configs (group g b).ctxs

item_text-Same :
    (a b : IpmiSensors)
    → Same a b
    → (c : Counter) (value : ℕ) → item_text a c value ≡ item_text b c value
item_text-Same a b h (sensors g) value =
    sensors_text_same (group g a).ctxs (group g b).ctxs value (h g)
item_text-Same a b h temp value = refl
item_text-Same a b h ts value = refl
item_text-Same a b h intv value = refl
item_text-Same a b h energy value = refl
item_text-Same a b h eunit value = refl
item_text-Same a b h perflmt value = refl
item_text-Same a b h (event e) value = refl

items_text-Same :
    (a b : IpmiSensors)
    → Same a b
    → (cs : List Counter) (i : ℕ) (row : List ℕ) → items_text a cs i row ≡ items_text b cs i row
items_text-Same a b h [] i row = refl
items_text-Same a b h (c ∷ cs) i row =
    ap₂ (λ s t. s ++ (comma_after cs ++ t)) (item_text-Same a b h c (get_or row i 0))
      (items_text-Same a b h cs (i + 1) row)

pub line_text-Same : (a b : IpmiSensors) → Same a b → line_text a ≡ line_text b
unfolding line_text
line_text-Same a b h =
    fun_ext
      (λ row. ap (λ t. codes "{" ++ (t ++ codes "}\n")) (items_text-Same a b h node_counters 0 row))

pub Same-next_groups :
    (scale : ℕ → ℕ → ℕ → ℕ) (hw : Hardware) (s : IpmiSensors) → Same s (next_groups scale hw s)
Same-next_groups scale hw s group_a = ap configs (sym (restart-ctxs s.at_a))
Same-next_groups scale hw s group_b = ap configs (sym (restart-ctxs s.at_b))
Same-next_groups scale hw s misc = ap configs (sym (restart-ctxs s.at_misc))

pub next_groups-AreSensors :
    (scale : ℕ → ℕ → ℕ → ℕ) (hw : Hardware) (s : IpmiSensors)
    → AreSensors s
    → AreSensors (next_groups scale hw s)
next_groups-AreSensors scale hw s v =
    let move = λ (ctx : IpmiSensorsCtx) (h : IsGroup ctx).
      subst (λ l. (length l ≤ 8) × All IsSensor l) (sym (restart-ctxs ctx)) h in
    record {
      a_valid = move s.at_a v.a_valid;
      b_valid = move s.at_b v.b_valid;
      misc_valid = move s.at_misc v.misc_valid;
    }

-- One group is replaced by another of the same sensors.
pub set_group-AreSensors :
    (s : IpmiSensors) (g : Group) (ctx : IpmiSensorsCtx)
    → AreSensors s
    → IsGroup ctx
    → AreSensors (set_group g ctx s)
set_group-AreSensors s group_a ctx v h = record {
  a_valid = h;
  b_valid = v.b_valid;
  misc_valid = v.misc_valid;
}
set_group-AreSensors s group_b ctx v h = record {
  a_valid = v.a_valid;
  b_valid = h;
  misc_valid = v.misc_valid;
}
set_group-AreSensors s misc ctx v h = record {
  a_valid = v.a_valid;
  b_valid = v.b_valid;
  misc_valid = h;
}

pub Same-set_group :
    (s : IpmiSensors) (g : Group) (ctx : IpmiSensorsCtx)
    → configs (group g s).ctxs ≡ configs ctx.ctxs
    → Same s (set_group g ctx s)
Same-set_group s group_a ctx e group_a = e
Same-set_group s group_a ctx e group_b = refl
Same-set_group s group_a ctx e misc = refl
Same-set_group s group_b ctx e group_a = refl
Same-set_group s group_b ctx e group_b = e
Same-set_group s group_b ctx e misc = refl
Same-set_group s misc ctx e group_a = refl
Same-set_group s misc ctx e group_b = refl
Same-set_group s misc ctx e misc = e

pub IsGroup-group : (s : IpmiSensors) (g : Group) → AreSensors s → IsGroup (group g s)
IsGroup-group s group_a v = v.a_valid
IsGroup-group s group_b v = v.b_valid
IsGroup-group s misc v = v.misc_valid

-- ===== src/Xstat/Show/Line.antt =====
-- The line printed for a row: an object with a field for each value, which always fits.
use xstats.Base.{
  ℕ, ◌+◌, bit_and, ◌≤◌, ◌<◌, ◌≡◌, true, List, [], ◌∷◌, ◌++◌, arith, length, length-append, get_or,
}
use xstats.Base.Text.{Text, codes, show_ℕ, length-show_ℕ-le}
use xstats.Xstat.World.{Group, group_a, group_b, misc, IpmiSensors, group, Ctx, ipmi, null}
use xstats.Xstat.Msr.{temp_text}
use xstats.Xstat.Ipmi.Sensors.{AreSensors, IsGroup}
use xstats.Xstat.Ipmi.Print.{sensors_text, length-sensors_text}
use xstats.Xstat.Table.{
  Counter, ts, intv, temp, energy, eunit, perflmt, event, sensors, cyc, inst, llcref, llcmiss, br,
  brmiss, l2lin, node_counters, name, event_name, plain_text,
}

-- The slot of each sensor counter points to its group.
abbrev pub Wired : List Counter → ℕ → List Ctx → Type 0
Wired [] i ctxs = Unit {0}
Wired (sensors g ∷ cs) i ctxs = (get_or ctxs i null ≡ ipmi g) × Wired cs (i + 1) ctxs
Wired (_ ∷ cs) i ctxs = Wired cs (i + 1) ctxs

abbrev pub comma_after : List Counter → Text
comma_after [] = []
comma_after (_ ∷ _) = codes ","

module _ (groups : IpmiSensors) where
  abbrev pub item_text : Counter → ℕ → Text
  item_text temp value = temp_text value
  item_text (sensors g) value = sensors_text true (group g groups).ctxs value
  item_text c value = plain_text c value

  abbrev pub items_text : List Counter → ℕ → List ℕ → Text
  items_text [] i row = []
  items_text (c ∷ cs) i row =
      item_text c (get_or row i 0) ++ (comma_after cs ++ items_text cs (i + 1) row)

  -- The whole line of a row.
  unfoldable pub line_text : List ℕ → Text
  line_text row = codes "{" ++ (items_text node_counters 0 row ++ codes "}\n")

-- The room that a counter's item may take, with its comma.
abbrev width : Counter → ℕ
width (sensors g) = 161
width ts = 31
width _ = 31

abbrev widths : List Counter → ℕ
widths [] = 0
widths (c ∷ cs) = width c + widths cs

group-IsGroup : (groups : IpmiSensors) (g : Group) → AreSensors groups → IsGroup (group g groups)
group-IsGroup groups group_a v = v.a_valid
group-IsGroup groups group_b v = v.b_valid
group-IsGroup groups misc v = v.misc_valid

length-plain_text :
    (n : Text) (value : ℕ)
    → length n ≤ 7
    → length (codes "\"" ++ (n ++ (codes "\":" ++ show_ℕ value))) < 31
length-plain_text n value h =
    omega (arith, length-append n (codes "\":" ++ show_ℕ value), length-show_ℕ-le value)

name_short : (c : Counter) → length (name c) ≤ 7
name_short (event cyc) = omega arith
name_short (event inst) = omega arith
name_short (event llcref) = omega arith
name_short (event llcmiss) = omega arith
name_short (event br) = omega arith
name_short (event brmiss) = omega arith
name_short (event l2lin) = omega arith
name_short (sensors g) = omega arith
name_short ts = omega arith
name_short intv = omega arith
name_short temp = omega arith
name_short energy = omega arith
name_short eunit = omega arith
name_short perflmt = omega arith

module _ (groups : IpmiSensors) (v : AreSensors groups) where
  length-item_text : (c : Counter) (value : ℕ) → length (item_text groups c value) < width c
  unfolding temp_text
  length-item_text temp value = omega (arith, length-show_ℕ-le (bit_and value 0xff))
  length-item_text (sensors g) value = omega (
    arith,
    length-sensors_text true (group g groups).ctxs value (group-IsGroup groups g v).1,
    (group-IsGroup groups g v).0,
  )
  length-item_text ts value = length-plain_text (name ts) value (name_short ts)
  length-item_text intv value = length-plain_text (name intv) value (name_short intv)
  length-item_text energy value = length-plain_text (name energy) value (name_short energy)
  length-item_text eunit value = length-plain_text (name eunit) value (name_short eunit)
  length-item_text perflmt value = length-plain_text (name perflmt) value (name_short perflmt)
  length-item_text (event e) value = length-plain_text (event_name e) value (name_short (event e))

  length-comma_after : (cs : List Counter) → length (comma_after cs) ≤ 1
  length-comma_after [] = omega arith
  length-comma_after (c ∷ cs) = omega arith

  length-items_text :
      (cs : List Counter) (i : ℕ) (row : List ℕ) → length (items_text groups cs i row) ≤ widths cs
  length-items_text [] i row = omega arith
  length-items_text (c ∷ cs) i row =
      let item : Text = item_text groups c (get_or row i 0) in
      let rest : Text = items_text groups cs (i + 1) row in
      omega (
        arith,
        length-append item (comma_after cs ++ rest),
        length-append (comma_after cs) rest,
        length-item_text c (get_or row i 0),
        length-comma_after cs,
        length-items_text cs (i + 1) row,
      )

  -- Where the sensors are within their C types, the line of any row has less than 1000 characters.
  pub length-line_text : (row : List ℕ) → length (line_text groups row) < 1000
  unfolding line_text
  length-line_text row = omega (
    arith,
    length-append (items_text groups node_counters 0 row) (codes "}\n"),
    length-items_text node_counters 0 row,
  )

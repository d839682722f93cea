-- ===== src/Xstat/Show/Last.antt =====
-- show_last_attr: the newest row, and what happens before the thread has set the sensor slots.
use xstats.Base.{
  ℕ, ◌+◌, ◌-◌, ◌<◌, ◌≡◌, refl, ◌⊎◌, inl, inr, List, [], ◌∷◌, ◌++◌, arith, length, take, get_or,
}
use xstats.Base.Text.{Text, codes}
use xstats.Kernel.{Result, ok, fault}
use xstats.Kernel.Printf.{Scnprintf}
use xstats.Ring.{row_at, last_index}
use xstats.Ring.Refine.{IsValid, last_index_refines}
use xstats.Xstat.World.{IpmiSensors, Group, group_a, group, Ctx, word, ipmi, null}
use xstats.Xstat.Msr.{temp_scnprintf, temp_text}
use xstats.Xstat.Ipmi.Sensors.{AreSensors}
use xstats.Xstat.Ipmi.Print.{scnprintf-ok}
use xstats.Xstat.Table.{Counter, ts, temp, sensors, node_counters, print, plain_text}
use xstats.Xstat.Node.{Node, ncnt, nbuf}
use xstats.Xstat.Node.Roll.{samples}
use xstats.Page.{page_size}
use xstats.Xstat.Show.{print_comma, print_items, print_buffer, show_last_attr}
use xstats.Xstat.Show.Line.{Wired, line_text, length-line_text}
use xstats.Xstat.Show.Print.{print_buffer_lem}

-- On a node whose ring is in order and not empty and whose sensor slots are set, with the sensors
-- within their C types, the whole line of the newest row is printed.
pub show_last_attr_lem :
    (printf : Scnprintf) (groups : IpmiSensors) (node : Node)
    → AreSensors groups
    → Wired node_counters 0 node.ctxs
    → IsValid ncnt nbuf node.ring
    → 0 < node.ring.buffer_size
    → (older : List (List ℕ)) × (row : List ℕ) × (samples node ≡ older ++ (row ∷ []))
      × (show_last_attr printf groups node ≡ ok (line_text groups row))
unfolding show_last_attr
show_last_attr_lem printf groups node v w valid h =
    let (older, newest) = last_index_refines ncnt nbuf node.ring valid h in
    let row = row_at ncnt node.ring.buffer (last_index ncnt nbuf node.ring) in
    (
      older,
      row,
      newest,
      print_buffer_lem printf groups node.ctxs row page_size w
          (omega (arith, length-line_text groups v row)),
    )

-- A call that ends well or in a fault.
abbrev Returns : Result Text → Type 0
Returns r = ((text : Text) × (r ≡ ok text)) ⊎ (r ≡ fault)

module _ (printf : Scnprintf) (groups : IpmiSensors) (ctxs : List Ctx) where
  write_Returns : (limit : ℕ) (s : Text) → Returns (printf.write limit s)
  write_Returns limit s = inl (take (limit - 1) s, printf.write_lem limit s)

  sensors_Returns :
      (g : Group) (slot : Ctx) (limit value : ℕ)
      → Returns (print printf groups (sensors g) slot limit value)
  unfolding print
  sensors_Returns g (ipmi h) limit value = inl (scnprintf-ok printf (group h groups) limit value)
  sensors_Returns g (word n) limit value = inr refl
  sensors_Returns g _ limit value = inr refl

  print-Returns :
      (c : Counter) (slot : Ctx) (limit value : ℕ)
      → Returns (print printf groups c slot limit value)
  unfolding print temp_scnprintf
  print-Returns temp slot limit value = write_Returns limit (temp_text value)
  print-Returns (sensors g) slot limit value = sensors_Returns g slot limit value
  print-Returns ts slot limit value = write_Returns limit _
  print-Returns c slot limit value = write_Returns limit (plain_text c value)

  print_comma-Returns : (cs : List Counter) (limit : ℕ) → Returns (print_comma printf cs limit)
  unfolding print_comma
  print_comma-Returns [] limit = inl ([], refl)
  print_comma-Returns (c ∷ cs) limit = write_Returns limit (codes ",")

  -- Some sensor counter's slot holds a number: it is null, or no pointer.
  abbrev Unwired : List Counter → ℕ → Type 0
  Unwired [] i = ⊥
  Unwired (c ∷ cs) i =
      ((g : Group) × (n : ℕ) × (c ≡ sensors g) × (get_or ctxs i null ≡ word n)) ⊎ Unwired cs (i + 1)

  print-fault :
      (g : Group) (n limit value : ℕ) → print printf groups (sensors g) (word n) limit value ≡ fault
  unfolding print
  print-fault g n limit value = refl

  print_items-fault :
      (cs : List Counter) (i : ℕ) (row : List ℕ) (limit : ℕ)
      → Unwired cs i
      → print_items printf groups ctxs cs i row limit ≡ fault
  unfolding print_items
  print_items-fault [] i row limit u = absurd u
  print_items-fault (c ∷ cs) i row limit (inl (g, n, e, slot)) =
      rw (e, slot, print-fault g n limit (get_or row i 0)) refl
  print_items-fault (c ∷ cs) i row limit (inr later) =
      elim (print-Returns c (get_or ctxs i null) limit (get_or row i 0)) [
        | inr e ↦ rw e refl
        | inl (item, e) ↦ elim (print_comma-Returns cs (limit - length item)) [
          | inr e' ↦ rw (e, e') refl
          | inl (comma, e') ↦
              rw
                (e, e', print_items-fault cs (i + 1) row (limit - length item - length comma) later)
                refl
        ]
      ]

-- Before the thread has run once, the sensor slots are null: reading the last row dereferences one of
-- them, whatever the ring holds, since this handler does not look whether there is a row.
pub show_last_attr-fault :
    (printf : Scnprintf) (groups : IpmiSensors) (node : Node) (n : ℕ)
    → get_or node.ctxs 13 null ≡ word n
    → show_last_attr printf groups node ≡ fault
unfolding show_last_attr print_buffer
show_last_attr-fault printf groups node n e =
    let row = row_at ncnt node.ring.buffer (last_index ncnt nbuf node.ring) in
    let start : Text = take 4095 (codes "{") in
    rw
      (
        printf.write_lem page_size (codes "{"),
        print_items-fault printf groups node.ctxs node_counters 0 row 4095 (
            inr (
              inr (
                inr (
                  inr (
                    inr (
                      inr
                        (inr (inr (inr (inr (inr (inr (inr (inl (group_a, n, refl, e))))))))))))))),
      )
      refl

-- ===== src/Xstat/Show/Print.antt =====
-- print_buffer prints the whole line where there is room for it.
use xstats.Base.{
  ℕ, ◌+◌, ◌-◌, ◌<◌, ◌≡◌, refl, List, [], ◌∷◌, ◌++◌, arith, length, length-append, get_or,
}
use xstats.Base.Text.{Text, codes}
use xstats.Kernel.{ok}
use xstats.Kernel.Printf.{Scnprintf, write_fits}
use xstats.Xstat.World.{IpmiSensors, group, Ctx, null}
use xstats.Xstat.Msr.{temp_text, temp_scnprintf}
use xstats.Xstat.Ipmi.Print.{scnprintf_lem}
use xstats.Xstat.Table.{
  Counter, ts, intv, temp, energy, eunit, perflmt, event, sensors, node_counters, print,
}
use xstats.Xstat.Show.Line.{Wired, comma_after, item_text, items_text, line_text}
use xstats.Xstat.Show.{print_comma, print_items, print_buffer}

module _ (printf : Scnprintf) (groups : IpmiSensors) (ctxs : List Ctx) where
  print_lem :
      (c : Counter) (cs : List Counter) (i limit value : ℕ)
      → Wired (c ∷ cs) i ctxs
      → length (item_text groups c value) < limit
      → print printf groups c (get_or ctxs i null) limit value ≡ ok (item_text groups c value)
  unfolding print temp_scnprintf temp_text
  print_lem temp cs i limit value w h = write_fits printf limit (temp_text value) h
  print_lem (sensors g) cs i limit value w h =
      rw w.0 (scnprintf_lem printf (group g groups) limit value h)
  print_lem ts cs i limit value w h = write_fits printf limit _ h
  print_lem intv cs i limit value w h = write_fits printf limit _ h
  print_lem energy cs i limit value w h = write_fits printf limit _ h
  print_lem eunit cs i limit value w h = write_fits printf limit _ h
  print_lem perflmt cs i limit value w h = write_fits printf limit _ h
  print_lem (event e) cs i limit value w h = write_fits printf limit _ h

  Wired-tail :
      (c : Counter) (cs : List Counter) (i : ℕ) → Wired (c ∷ cs) i ctxs → Wired cs (i + 1) ctxs
  Wired-tail (sensors g) cs i w = w.1
  Wired-tail ts cs i w = w
  Wired-tail intv cs i w = w
  Wired-tail temp cs i w = w
  Wired-tail energy cs i w = w
  Wired-tail eunit cs i w = w
  Wired-tail perflmt cs i w = w
  Wired-tail (event e) cs i w = w

  print_comma_lem :
      (cs : List Counter) (limit : ℕ)
      → length (comma_after cs) < limit
      → print_comma printf cs limit ≡ ok (comma_after cs)
  unfolding print_comma
  print_comma_lem [] limit h = refl
  print_comma_lem (c ∷ cs) limit h = write_fits printf limit (codes ",") h

  print_items_lem :
      (cs : List Counter) (i : ℕ) (row : List ℕ) (limit : ℕ)
      → Wired cs i ctxs
      → length (items_text groups cs i row) < limit
      → print_items printf groups ctxs cs i row limit ≡ ok (items_text groups cs i row)
  unfolding print_items
  print_items_lem [] i row limit w h = refl
  print_items_lem (c ∷ cs) i row limit w h =
      let item : Text = item_text groups c (get_or row i 0) in
      let rest : Text = items_text groups cs (i + 1) row in
      let sizes = length-append item (comma_after cs ++ rest) in
      let sizes' = length-append (comma_after cs) rest in
      rw
        (
          print_lem c cs i limit (get_or row i 0) w (omega (arith, sizes)),
          print_comma_lem cs (limit - length item) (omega (arith, sizes, sizes')),
          print_items_lem cs (i + 1) row (limit - length item - length (comma_after cs))
              (Wired-tail c cs i w) (omega (arith, sizes, sizes')),
        )
        refl

  -- Where the sensor slots are set and there is room for the line, the line is what is printed.
  pub print_buffer_lem :
      (row : List ℕ) (limit : ℕ)
      → Wired node_counters 0 ctxs
      → length (line_text groups row) < limit
      → print_buffer printf groups ctxs limit row ≡ ok (line_text groups row)
  unfolding print_buffer line_text
  print_buffer_lem row limit w h =
      let items : Text = items_text groups node_counters 0 row in
      let sizes = length-append items (codes "}\n") in
      rw
        (
          write_fits printf limit (codes "{") (omega arith),
          print_items_lem node_counters 0 row (limit - 1) w (omega (arith, sizes)),
          write_fits printf (limit - 1 - length items) (codes "}\n") (omega (arith, sizes)),
        )
        refl

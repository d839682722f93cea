-- ===== src/Micstat/Show.antt =====
-- print_buffer, micstat_show_stat and micstat_show_last of micstat.
use xstats.Base.{ℕ, ◌≤◌, ◌<◌, ◌≡◌, refl, List, arith, length, concat}
use xstats.Base.Text.{Text, codes}
use xstats.Kernel.{Result, ok}
use xstats.Kernel.Printf.{Scnprintf, write_fits, write_all_fits}
use xstats.Ring.{Ring}
use xstats.Ring.Refine.{IsValid}
use xstats.Page
use xstats.Page.Last
use xstats.Page.Line
use xstats.Page.{page_size}
use xstats.Page.Drain.{Prints, Drained, drain_lem}
use xstats.Page.Last.{Newest, show_last-Newest}
use xstats.Page.Line.{
  plain_item, length-plain_item, line_text, length-line_text, print_buffer_whole,
}
use xstats.Micstat.Fields.{fields_text, length-fields_text}
use xstats.Micstat.Temps.{temp_fields, temp2_fields, temp_scnprintf, temp2_scnprintf}
use xstats.Micstat.Power.{power_text, power_scnprintf, length-power_text}
use xstats.Micstat.Counters.{
  Counter, ts, intv, freq, temp, temp2, power, volt, oh, perf, perf_name, counters, ncnt, nbuf,
}
use xstats.Micstat.Buffer.{samples}

abbrev pub name : Counter → Text
name ts = codes "ts"
name intv = codes "intv"
name freq = codes "freq"
name temp = codes "temp"
name temp2 = codes "temp2"
name power = codes "power"
name volt = codes "volt"
name oh = codes "oh"
name (perf config cells) = perf_name config

-- A round of the loop of print_buffer: the counter's own scnprintf, where it has one.
pub print_item : Scnprintf → Counter → ℕ → ℕ → Result Text
print_item printf temp limit value = temp_scnprintf printf limit value
print_item printf temp2 limit value = temp2_scnprintf printf limit value
print_item printf power limit value = power_scnprintf printf limit value
print_item printf ts limit value = printf.write limit (plain_item (name ts) value)
print_item printf c limit value = printf.write limit (plain_item (name c) value)

-- The names and functions of the table do not change, so that its cells do not matter here.
abbrev pub print_buffer : Scnprintf → ℕ → List ℕ → Result Text
print_buffer printf = Page.Line.print_buffer printf (print_item printf) (counters 0)

abbrev pub micstat_show_stat : Scnprintf → Ring → Result (Text × Ring)
micstat_show_stat printf ring =
    Page.drain ncnt nbuf (print_buffer printf) ring.buffer_size page_size ring

abbrev pub micstat_show_last : Scnprintf → Ring → Result Text
micstat_show_last printf ring = Page.Last.show_last ncnt nbuf (print_buffer printf) ring

-- The whole text of an item.
abbrev pub item_text : Counter → ℕ → Text
item_text temp value = concat (fields_text temp_fields value)
item_text temp2 value = concat (fields_text temp2_fields value)
item_text power value = concat (power_text value)
item_text ts value = plain_item (name ts) value
item_text c value = plain_item (name c) value

abbrev pub line : List ℕ → Text
line = line_text item_text (counters 0)

-- The room that an item may take.
abbrev width : Counter → ℕ
width temp = 248
width temp2 = 248
width power = 217
width ts = 31
width _ = 31

length-item_text : (c : Counter) (value : ℕ) → length (item_text c value) ≤ width c
length-item_text temp value = length-fields_text temp_fields value (omega arith)
length-item_text temp2 value = length-fields_text temp2_fields value (omega arith)
length-item_text power value = length-power_text value
length-item_text ts value = length-plain_item (name ts) value (omega arith)
length-item_text intv value = length-plain_item (name intv) value (omega arith)
length-item_text freq value = length-plain_item (name freq) value (omega arith)
length-item_text volt value = length-plain_item (name volt) value (omega arith)
length-item_text oh value = length-plain_item (name oh) value (omega arith)
length-item_text (perf config cells) value =
    length-plain_item (perf_name config) value (ground arith)

print_item_whole :
    (printf : Scnprintf) (c : Counter) (limit value : ℕ)
    → length (item_text c value) < limit
    → print_item printf c limit value ≡ ok (item_text c value)
unfolding print_item temp_scnprintf temp2_scnprintf power_scnprintf
print_item_whole printf temp limit value h =
    write_all_fits printf limit (fields_text temp_fields value) h
print_item_whole printf temp2 limit value h =
    write_all_fits printf limit (fields_text temp2_fields value) h
print_item_whole printf power limit value h = write_all_fits printf limit (power_text value) h
print_item_whole printf ts limit value h = write_fits printf limit _ h
print_item_whole printf intv limit value h = write_fits printf limit _ h
print_item_whole printf freq limit value h = write_fits printf limit _ h
print_item_whole printf volt limit value h = write_fits printf limit _ h
print_item_whole printf oh limit value h = write_fits printf limit _ h
print_item_whole printf (perf config cells) limit value h = write_fits printf limit _ h

pub micstat_print_buffer-Prints : (printf : Scnprintf) → Prints (print_buffer printf) line
micstat_print_buffer-Prints printf = record {
  whole =
      print_buffer_whole item_text printf (print_item printf) (print_item_whole printf)
        (counters 0);
  short = λ row. omega (arith, length-line_text item_text width length-item_text (counters 0) row);
}

-- On a module whose ring is in order, a read of `stat` succeeds: it prints whole lines of the oldest
-- rows, takes just these off, leaves rows only where more than half of the page is full, prints at
-- least one row where there is one, stays within the page, and leaves the ring in order.
pub micstat_stat_lem :
    (printf : Scnprintf) (ring : Ring)
    → IsValid ncnt nbuf ring
    → (text : Text) × (ring' : Ring) × (micstat_show_stat printf ring ≡ ok (text, ring'))
      × Drained ncnt nbuf
          (print_buffer printf)
          line
          (micstat_print_buffer-Prints printf)
          (samples ring)
          page_size
          text
          ring'
micstat_stat_lem printf ring v =
    drain_lem ncnt nbuf (print_buffer printf) line (micstat_print_buffer-Prints printf)
      ring.buffer_size page_size ring v refl (omega arith)

-- On a module whose ring is in order, a read of `last` prints the whole line of the newest row, and
-- nothing where no row is held.
pub micstat_show_last_lem :
    (printf : Scnprintf) (ring : Ring)
    → IsValid ncnt nbuf ring
    → (text : Text) × (micstat_show_last printf ring ≡ ok text) × Newest line (samples ring) text
micstat_show_last_lem printf ring v =
    show_last-Newest ncnt (print_buffer printf) line ring (micstat_print_buffer-Prints printf) v

-- ===== src/Sbstat/Show.antt =====
-- print_buffer and micstat_show_stat of sbstat.
use xstats.Base.{ℕ, ◌≤◌, ◌≡◌, refl, List, arith, length, ◌==◌, if◌then◌else◌}
use xstats.Base.Text.{Text, codes}
use xstats.Kernel.{Result, ok}
use xstats.Kernel.Printf.{Scnprintf, write_fits}
use xstats.Ring.{Ring}
use xstats.Ring.Refine.{IsValid}
use xstats.Page.{page_size, drain}
use xstats.Page.Drain.{Prints, Drained, drain_lem}
use xstats.Page.Line.{
  plain_item, length-plain_item, print_buffer, line_text, length-line_text, print_buffer_whole,
}
use xstats.Sbstat.{Counter, ts, intv, temp, oh, perf, counters, ncnt, nbuf}
use xstats.Sbstat.Buffer.{samples}

-- The names that PERF_RAW_CONFIG pairs with the codes.
abbrev pub perf_name : ℕ → Text
perf_name config =
    if config == 0x003c
    then codes "cyc"
    else if config == 0x00c0
    then codes "inst"
    else if config == 0x4f2e
    then codes "llcref"
    else if config == 0x412e
    then codes "llcmiss"
    else if config == 0x00c4
    then codes "br"
    else if config == 0x00c5
    then codes "brmiss"
    else codes "l2lin"

abbrev pub name : Counter → Text
name ts = codes "ts"
name intv = codes "intv"
name temp = codes "temp"
name oh = codes "oh"
name (perf config cells) = perf_name config

-- No counter of sbstat has a scnprintf of its own.
unfoldable pub print_item : Scnprintf → Counter → ℕ → ℕ → Result Text
print_item printf c limit value = printf.write limit (plain_item (name c) value)

abbrev pub micstat_show_stat : Scnprintf → Ring → Result (Text × Ring)
micstat_show_stat printf ring =
    drain ncnt nbuf (print_buffer printf (print_item printf) counters) ring.buffer_size page_size
      ring

-- The line of a row: each counter's name and word.
abbrev pub line : List ℕ → Text
line = line_text (λ c. plain_item (name c)) counters

name_short : (c : Counter) → length (name c) ≤ 7
name_short (perf config cells) = ground arith
name_short ts = omega arith
name_short intv = omega arith
name_short temp = omega arith
name_short oh = omega arith

pub print_buffer-Prints :
    (printf : Scnprintf) → Prints (print_buffer printf (print_item printf) counters) line
unfolding print_item
print_buffer-Prints printf = record {
  whole =
      print_buffer_whole (λ c. plain_item (name c)) printf (print_item printf)
        (λ c limit value h. write_fits printf limit (plain_item (name c) value) h) counters;
  short = λ row. omega (
    arith,
    length-line_text (λ c. plain_item (name c)) (λ c. 31)
        (λ c value. length-plain_item (name c) value (name_short c)) counters row,
  );
}

-- On a module whose ring is in order, a read of `stat` succeeds: it prints whole lines of the oldest
-- rows, takes just these off, leaves rows only where more than half of the page is full, prints at
-- least one row where there is one, stays within the page, and leaves the ring in order.
pub micstat_show_stat_lem :
    (printf : Scnprintf) (ring : Ring)
    → IsValid ncnt nbuf ring
    → (text : Text) × (ring' : Ring) × (micstat_show_stat printf ring ≡ ok (text, ring'))
      × Drained ncnt nbuf
          (print_buffer printf (print_item printf) counters)
          line
          (print_buffer-Prints printf)
          (samples ring)
          page_size
          text
          ring'
micstat_show_stat_lem printf ring v =
    drain_lem ncnt nbuf (print_buffer printf (print_item printf) counters) line
      (print_buffer-Prints printf) ring.buffer_size page_size ring v refl (omega arith)

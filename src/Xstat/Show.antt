-- ===== src/Xstat/Show.antt =====
-- The read side of a node in xstat/xstat.c: print_buffer, show_stat_attr, show_last_attr, and
-- store_reset_attr. A text returned is what the attribute's buffer holds, its length the count.
pub mod Line
pub mod Print
pub mod Stat
pub mod Last
pub mod Reset
use xstats.Base.{
  ℕ, zero, suc, ◌+◌, ◌-◌, Bool, true, false, ◌&&◌, List, [], ◌∷◌, ◌++◌, ltb, if◌then◌else◌, length,
  get_or,
}
use xstats.Base.Text.{Text, codes}
use xstats.Kernel.{Result, ok, failed, fault, ◌>>=◌}
use xstats.Kernel.Printf.{Scnprintf}
use xstats.Page.{page_size, drain}
use xstats.Ring
use xstats.Ring.{Ring, row_at}
use xstats.Xstat.World.{IpmiSensors, Ctx, null}
use xstats.Xstat.Table
use xstats.Xstat.Table.{Counter, node_counters}
use xstats.Xstat.Node.{Node, ncnt, nbuf}

-- A comma follows every counter but the last.
pub print_comma : Scnprintf → List Counter → ℕ → Result Text
print_comma printf [] limit = ok []
print_comma printf (_ ∷ _) limit = printf.write limit (codes ",")

module _ (printf : Scnprintf) (groups : IpmiSensors) (ctxs : List Ctx) where
  -- The loop over the counters from `i` on. A null `ctxs` gives null slots.
  pub print_items : List Counter → ℕ → List ℕ → ℕ → Result Text
  print_items [] i row limit = ok []
  print_items (c ∷ cs) i row limit = do
    item ← Table.print printf groups c (get_or ctxs i null) limit (get_or row i 0)
    comma ← print_comma printf cs (limit - length item)
    rest ← print_items cs (i + 1) row (limit - length item - length comma)
    ok (item ++ (comma ++ rest))

  pub print_buffer : ℕ → List ℕ → Result Text
  print_buffer limit row = do
    start ← printf.write limit (codes "{")
    items ← print_items node_counters 0 row (limit - length start)
    end ← printf.write (limit - length start - length items) (codes "}\n")
    ok (start ++ (items ++ end))

unfoldable pub show_stat_attr : Scnprintf → IpmiSensors → Node → Result (Text × Node)
show_stat_attr printf groups node = do
  (text, ring) ←
      drain ncnt nbuf (print_buffer printf groups node.ctxs) node.ring.buffer_size page_size
        node.ring
  ok (text, record node { ring = ring })

-- The row before `buffer_next`, whether or not the ring holds it.
pub show_last_attr : Scnprintf → IpmiSensors → Node → Result Text
show_last_attr printf groups node =
    print_buffer printf groups node.ctxs page_size
      (row_at ncnt node.ring.buffer (Ring.last_index ncnt nbuf node.ring))

-- A write of at least one byte empties the ring; the return value is the count given.
unfoldable pub store_reset_attr : Node → ℕ → Node
store_reset_attr node count =
    if ltb 0 count then record node { ring = Ring.reset node.ring } else node

-- ===== src/Xstat/Show/Stat.antt =====
-- show_stat_attr: the oldest rows are printed and taken off, as many as the page lets.
use xstats.Base.{
  ℕ, zero, suc, ◌/◌, ◌≤◌, ◌<◌, ◌≡◌, refl, ◌∙◌, ◌⊎◌, inl, inr, List, [], ◌∷◌, map, arith, length,
  take, drop, concat, All,
}
use xstats.Base.Text.{Text}
use xstats.Kernel.{Result, ok, >>=_assoc, ◌>>=◌}
use xstats.Kernel.Printf.{Scnprintf}
use xstats.Page.{page_size}
use xstats.Page.Drain.{Prints, drain_lem}
use xstats.Page.Reader.{read_times, read_times_lem}
use xstats.Ring.Refine.{IsValid}
use xstats.Xstat.World.{IpmiSensors, Ctx}
use xstats.Xstat.Ipmi.Sensors.{AreSensors}
use xstats.Xstat.Table.{node_counters}
use xstats.Xstat.Node.{Node, ncnt, nbuf}
use xstats.Xstat.Node.Roll.{samples}
use xstats.Xstat.Show.{print_buffer, show_stat_attr}
use xstats.Xstat.Show.Line.{Wired, line_text, length-line_text}
use xstats.Xstat.Show.Print.{print_buffer_lem}

-- The texts of `n` reads of the attribute, one after the other.
pub show_stat_times : Scnprintf → IpmiSensors → ℕ → Node → Result (List Text × Node)
show_stat_times printf groups zero node = ok ([], node)
show_stat_times printf groups (suc n) node = do
  (text, node') ← show_stat_attr printf groups node
  (texts, node'') ← show_stat_times printf groups n node'
  ok (text ∷ texts, node'')

show_stat_times-read_times :
    (printf : Scnprintf) (groups : IpmiSensors) (n : ℕ) (node : Node)
    → show_stat_times printf groups n node ≡ (
        read_times ncnt nbuf (print_buffer printf groups node.ctxs) n node.ring >>= λ (texts, ring).
        ok (texts, record node { ring = ring }))
unfolding show_stat_times read_times show_stat_attr
show_stat_times-read_times printf groups zero node = refl
show_stat_times-read_times printf groups (suc n) node =
    simp (>>=_assoc, show_stat_times-read_times printf groups n)

module _ (printf : Scnprintf) (groups : IpmiSensors) (v : AreSensors groups) where
  pub print_buffer-Prints :
      (ctxs : List Ctx)
      → Wired node_counters 0 ctxs
      → Prints (print_buffer printf groups ctxs) (line_text groups)
  print_buffer-Prints ctxs w = record {
    whole = λ limit row h. print_buffer_lem printf groups ctxs row limit w h;
    short = λ row. omega (arith, length-line_text groups v row);
  }

  -- A node whose ring is in order and whose sensor slots are set, with the sensors within their C
  -- types, prints its oldest rows, each as a whole line, and keeps the others in order. It stops
  -- only when no row is left or half the page is full; the text with its final zero fits the page.
  pub show_stat_attr_lem :
      (node : Node)
      → Wired node_counters 0 node.ctxs
      → IsValid ncnt nbuf node.ring
      → (text : Text) × (node' : Node) × (k : ℕ) × (show_stat_attr printf groups node
          ≡ ok (text, node'))
        × (text ≡ concat (map (line_text groups) (take k (samples node))))
        × (samples node' ≡ drop k (samples node))
        × IsValid ncnt nbuf node'.ring
        × ((samples node' ≡ []) ⊎ (page_size / 2 ≤ length text))
        × (length text < page_size)
  unfolding show_stat_attr
  show_stat_attr_lem node w valid =
      let (text, ring, run, d) =
        drain_lem ncnt nbuf _ _ (print_buffer-Prints node.ctxs w) node.ring.buffer_size page_size
          node.ring valid refl (omega arith) in
      (
        text,
        record node { ring = ring },
        d.k,
        rw run refl,
        d.printed,
        d.kept,
        d.valid,
        elim d.greedy [ inl none_left ↦ inl none_left | inr full ↦ inr (omega arith) ],
        d.fits,
      )

  -- Read as often as it holds rows, a node whose ring is in order and whose sensor slots are set, with
  -- the sensors within their C types, prints every row, whole, once and in order, on pages that are
  -- not exceeded, and is empty then.
  pub show_stat_attr-empties :
      (node : Node) (n : ℕ)
      → Wired node_counters 0 node.ctxs
      → IsValid ncnt nbuf node.ring
      → node.ring.buffer_size ≤ n
      → (texts : List Text) × (node' : Node) × (show_stat_times printf groups n node
          ≡ ok (texts, node'))
        × (samples node' ≡ [])
        × (concat texts ≡ concat (map (line_text groups) (samples node)))
        × All (λ text. length text < page_size) texts
  show_stat_attr-empties node n w valid h =
      let (texts, ring, run, valid', empty, all, pages) =
        read_times_lem ncnt nbuf _ _ (print_buffer-Prints node.ctxs w) n node.ring valid h in
      (
        texts,
        record node { ring = ring },
        show_stat_times-read_times printf groups n node ∙ rw run refl,
        empty,
        all,
        pages,
      )

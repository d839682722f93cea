-- ===== src/Page/Last.antt =====
-- micstat_show_last of haswellstat/stat.c and micstat/micstat.c, which is the same text in both.
use xstats.Base.{
  ℕ, ◌<◌, length, ◌≡◌, refl, ap, List, [], ◌∷◌, ◌++◌, arith, ltb, lt→ltb, if◌then◌else◌,
}
use native.Mathlib.Decide.{dec_lt}
use xstats.Base.Text.{Text}
use xstats.Kernel.{Result, ok}
use xstats.Ring.{Ring, row_at, last_index}
use xstats.Ring.Window.{window}
use xstats.Ring.Refine.{IsValid, contents, last_index_refines}
use xstats.Ring.Clear.{clear, buffer_last, buffer_last-last_index}
use xstats.Page.{page_size}
use xstats.Page.Drain.{Prints}

module _ (ncnt nbuf : ℕ) (print : ℕ → List ℕ → Result Text) where
  -- Of an empty ring nothing is printed.
  pub show_last : Ring → Result Text
  show_last ring =
      let newest = print page_size (row_at ncnt ring.buffer (buffer_last nbuf ring)) in
      if ltb 0 ring.buffer_size then newest else ok []

-- What is printed of the rows held: nothing, or the line of the newest.
pub data Newest (line : List ℕ → Text) (q : List (List ℕ)) (text : Text) : Type 0 where
  nothing : q ≡ [] → text ≡ [] → Newest line q text
  newest :
      (older : List (List ℕ)) (row : List ℕ)
      → q ≡ older ++ (row ∷ [])
      → text ≡ line row
      → Newest line q text

-- What is printed leaves half a page free.
pub length-Newest :
    (print : ℕ → List ℕ → Result Text) (line : List ℕ → Text)
    → Prints print line
    → (q : List (List ℕ)) (text : Text) → Newest line q text
    → length text < page_size
length-Newest print line p q text (nothing none_held e) = rw e (omega arith)
length-Newest print line p q text (newest older row held e) = rw e (omega (arith, p.short row))

pub show_last-clear :
    (ncnt : ℕ) (print : ℕ → List ℕ → Result Text) (ring : Ring)
    → show_last ncnt 128 print (clear ring) ≡ ok []
unfolding show_last clear
show_last-clear ncnt print ring = refl

pub show_last-Newest :
    (ncnt : ℕ) (print : ℕ → List ℕ → Result Text) (line : List ℕ → Text) (ring : Ring)
    → Prints print line
    → IsValid ncnt 128 ring
    → (text : Text) × (show_last ncnt 128 print ring ≡ ok text)
      × Newest line (contents ncnt 128 ring) text
unfolding show_last
show_last-Newest ncnt print line ring p v = elim (dec_lt 0 ring.buffer_size) [
  | yes some_held ↦
      let (older, q) = last_index_refines ncnt 128 ring v some_held in
      let row = row_at ncnt ring.buffer (last_index ncnt 128 ring) in
      (
        line row,
        rw (lt→ltb 0 ring.buffer_size some_held, buffer_last-last_index ncnt ring v some_held)
            (p.whole page_size row (omega (arith, p.short row))),
        newest older row q refl,
      )
  | no none_held ↦
      let empty : ring.buffer_size ≡ 0 = omega arith in
      (
        [],
        ap
            (λ n.
              if ltb 0 n
              then print page_size (row_at ncnt ring.buffer (buffer_last 128 ring))
              else ok [])
            empty,
        nothing (ap (window ncnt 128 ring.buffer ring.buffer_base 0) empty) refl,
      )
]

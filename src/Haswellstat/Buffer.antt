-- ===== src/Haswellstat/Buffer.antt =====
-- The ring of haswellstat: roll_buffer, which gives up the oldest row when it is full, and the
-- attributes `clear`, `stat` and `last`.
use xstats.Base.{
  Bool, true, false, ℕ, ◌≡◌, refl, ap, ◌∙◌, ◌⊎◌, inl, inr, ◌&&◌, ◌||◌, List, [], ◌++◌, map, concat,
  length, leb, if◌then◌else◌, Bool-cases,
}
use mathlib.Core.List.{Sublist}
use xstats.Base.Text.{Text, codes}
use xstats.Kernel.{Result, ok, ◌>>=◌}
use xstats.Kernel.Printf.{Scnprintf}
use xstats.Ring
use xstats.Ring.{Ring}
use xstats.Ring.Refine.{IsValid, contents, append, push_refines}
use xstats.Ring.Clear.{clear, clear_refines}
use xstats.Page
use xstats.Page.Last
use xstats.Page.{page_size}
use xstats.Page.Last.{Newest, show_last-Newest, show_last-clear}
use xstats.Page.History.{Action, Rows, produced, run, KeepsOrder, append-Sublist, run-Delivers}
use xstats.Xstat.Control.{starts_with}
use xstats.Sbstat.{Readings, Cell}
use xstats.Sbstat.Counters.{restart_counters_lem}
use xstats.Sbstat.Buffer.{Sampler, IsSampler}
use xstats.Sbstat.Show.{line, print_buffer-Prints}
use xstats.Haswellstat.{ncnt, nbuf, perf_restart, restart_counters, print_buffer}

pub roll_buffer : (ℕ → ℕ → ℕ → ℕ) → Readings → Sampler → Result (ℕ × Sampler)
roll_buffer scale now s = do
  let (row, after) = restart_counters scale now s.trace s.counters
  ring ← Ring.push ncnt nbuf s.ring row
  ok (0, record { trace = after.0; counters = after.1; ring = ring })

-- The text written begins with `on` or with `1`.
abbrev pub asks_clear : Text → ℕ → Bool
asks_clear buf count =
    (leb 2 count && starts_with buf (codes "on")) || (leb 1 count && starts_with buf (codes "1"))

-- With the return value.
pub micstat_store_clear : Text → ℕ → Ring → ℕ × Ring
micstat_store_clear buf count ring = if asks_clear buf count then (count, clear ring) else (0, ring)

abbrev pub micstat_show_stat : Scnprintf → Ring → Result (Text × Ring)
micstat_show_stat printf ring =
    Page.drain ncnt nbuf (print_buffer printf) ring.buffer_size page_size ring

abbrev pub micstat_show_last : Scnprintf → Ring → Result Text
micstat_show_last printf ring = Page.Last.show_last ncnt nbuf (print_buffer printf) ring

abbrev pub samples : Ring → List (List ℕ)
samples r = contents ncnt nbuf r

-- A round of a sampler whose ring is in order stores the row of this round's values at the end; where
-- 128 rows are held, the oldest is given up. The next round measures its interval from this one, and
-- the counters are those after this round.
pub haswell_roll_buffer-IsSampler :
    (scale : ℕ → ℕ → ℕ → ℕ) (now : Readings) (s : Sampler)
    → IsSampler s
    → (s' : Sampler) × (roll_buffer scale now s ≡ ok (0, s'))
      × IsSampler s'
      × (samples s'.ring
          ≡ append nbuf (samples s.ring) (restart_counters scale now s.trace s.counters).0)
      × (s'.trace.st_current ≡ now.started)
      × (s'.counters ≡ (restart_counters scale now s.trace s.counters).1.1)
unfolding roll_buffer
haswell_roll_buffer-IsSampler scale now s v =
    let out = restart_counters scale now s.trace s.counters in
    let after : List Cell → List Cell = λ cells. (perf_restart scale now.perf_value 0 cells).1 in
    let values =
      ap (restart_counters scale now s.trace) v.shape
      ∙ restart_counters_lem scale now s.trace v.a v.b v.c v.d v.e v.f v.g in
    let (ring, run, valid, log) =
      push_refines ncnt nbuf s.ring out.0 v.in_order (ap (λ r. length r.0) values) in
    (
      record { trace = out.1.0; counters = out.1.1; ring = ring },
      rw run refl,
      record {
        a = after v.a;
        b = after v.b;
        c = after v.c;
        d = after v.d;
        e = after v.e;
        f = after v.f;
        g = after v.g;
        shape = ap (λ r. r.1.1) values;
        in_order = valid;
      },
      log,
      ap (λ r. r.1.0.st_current) values,
      refl,
    )

-- The actions on the ring, each under the lock.
abbrev pub history : Scnprintf → List Action → Ring → Result (Text × Ring)
history printf = run ncnt nbuf (Ring.push ncnt nbuf) clear (print_buffer printf)

push-KeepsOrder :
    (printf : Scnprintf) → KeepsOrder ncnt nbuf (Ring.push ncnt nbuf) clear (print_buffer printf)
push-KeepsOrder printf = record {
  stored = λ ring row v h.
      let (ring', e, v', log) = push_refines ncnt nbuf ring row v h in
      (ring', e, v', rw log (append-Sublist nbuf (samples ring) row));
  cleared = λ ring v. clear_refines ncnt ring v;
}

-- From a ring in order, in whatever order rows of full width are stored, `stat` is read and the ring
-- is cleared, nothing fails, and the ring stays in order. What all readers get together is the whole
-- lines of some rows; these, and after them the rows held at the end, are rows held at the start or
-- stored since, none twice, and in that order.
pub haswell_history-Sublist :
    (printf : Scnprintf) (acts : List Action) (ring : Ring)
    → IsValid ncnt nbuf ring
    → Rows ncnt acts
    → (text : Text) × (ring' : Ring) × (delivered : List (List ℕ)) × (history printf acts ring
        ≡ ok (text, ring'))
      × IsValid ncnt nbuf ring'
      × (text ≡ concat (map line delivered))
      × Sublist (delivered ++ samples ring') (samples ring ++ produced acts)
haswell_history-Sublist printf acts ring v h =
    run-Delivers ncnt nbuf (Ring.push ncnt nbuf) clear (print_buffer printf) line
      (print_buffer-Prints printf) (push-KeepsOrder printf) acts ring v h

-- A write to `clear` keeps the ring in order, and empties it or leaves it.
pub micstat_store_clear_lem :
    (buf : Text) (count : ℕ) (ring : Ring)
    → IsValid ncnt nbuf ring
    → let (ret, ring') = micstat_store_clear buf count ring in
      IsValid ncnt nbuf ring' × ((samples ring' ≡ []) ⊎ (ring' ≡ ring))
unfolding micstat_store_clear
micstat_store_clear_lem buf count ring v = elim (Bool-cases (asks_clear buf count)) [
  | inl word ↦ let (valid, empty) = clear_refines ncnt ring v in rw word (valid, inl empty)
  | inr other ↦ rw other (v, inr refl)
]

pub micstat_show_last_lem :
    (printf : Scnprintf) (ring : Ring)
    → IsValid ncnt nbuf ring
    → (text : Text) × (micstat_show_last printf ring ≡ ok text) × Newest line (samples ring) text
micstat_show_last_lem printf ring v =
    show_last-Newest ncnt (print_buffer printf) line ring (print_buffer-Prints printf) v

-- On a module whose ring is in order, a write to `clear` that begins with `on` or `1` returns its
-- count, and a read of `last` then prints nothing; any other write returns 0 and leaves the ring, and a
-- read of `last` then prints the whole line of the newest row, or nothing where none is held. The ring
-- stays in order.
pub haswell_clear_then_last :
    (printf : Scnprintf) (buf : Text) (count : ℕ) (ring : Ring)
    → IsValid ncnt nbuf ring
    → let (ret, ring') = micstat_store_clear buf count ring in
      IsValid ncnt nbuf ring'
      × (((asks_clear buf count ≡ true) × (ret ≡ count) × (micstat_show_last printf ring' ≡ ok []))
          ⊎ ((asks_clear buf count ≡ false)
              × (ret ≡ 0)
              × (ring' ≡ ring)
              × (text : Text) × (micstat_show_last printf ring' ≡ ok text)
              × Newest line (samples ring) text))
unfolding micstat_store_clear
haswell_clear_then_last printf buf count ring v = elim (Bool-cases (asks_clear buf count)) [
  | inl word ↦ rw word (
    (clear_refines ncnt ring v).0,
    inl (refl, refl, show_last-clear ncnt (print_buffer printf) ring),
  )
  | inr other ↦
      let (text, said, last) =
        show_last-Newest ncnt (print_buffer printf) line ring (print_buffer-Prints printf) v in
      rw other (v, inr (refl, refl, refl, text, said, last))
]

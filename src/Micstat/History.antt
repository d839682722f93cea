-- ===== src/Micstat/History.antt =====
-- micstat under any interleaving of its thread with reads of `stat` and writes of `clear`. Each of
-- them holds the buffer's lock where it touches the ring, so that a history is a sequence of whole
-- actions.
use mathlib.Core.List.{Sublist, nil-sublist, map-append}
use mathlib.Core.List.Sublist
use xstats.Base.{
  ℕ, ◌≡◌, refl, sym, ap, ap₂, ◌∙◌, inl, inr, List, [], ◌∷◌, ◌++◌, map, take, concat, arith,
  append-nil, get_or,
}
use xstats.Base.Text.{Text}
use xstats.Kernel.{Result, ok, ◌>>=◌}
use xstats.Kernel.Printf.{Scnprintf}
use xstats.Page.{page_size}
use xstats.Page.Drain.{drain_lem}
use xstats.Page.History.{append-Sublist, take-drop, concat-map_append, Sublist-chain}
use xstats.Micstat.Smc.{Bus}
use xstats.Micstat.Freq.{PllData}
use xstats.Micstat.Counters.{ncnt, nbuf, Readings, restart_counters, restart_counters_lem}
use xstats.Micstat.Buffer.{
  Sampler, roll_buffer, micstat_store_clear, samples, IsSampler, micstat_roll_buffer-IsSampler,
  micstat_store_clear_lem,
}
use xstats.Micstat.Show.{print_buffer, line, micstat_show_stat, micstat_print_buffer-Prints}

-- A round of the thread, a read of `stat`, or a write to `clear`.
pub data Action : Type 0 where
  round : (now : Readings) → Action
  read : Action
  clear : (buf : Text) (count : ℕ) → Action

-- The times of the rounds.
abbrev pub times : List Action → List ℕ
times [] = []
times (round now ∷ acts) = now.started ∷ times acts
times (read ∷ acts) = times acts
times (clear buf count ∷ acts) = times acts

-- The first word of a row.
abbrev pub time_of : List ℕ → ℕ
time_of row = get_or row 0 0

module _ (printf : Scnprintf) (scale : ℕ → ℕ → ℕ → ℕ) (smc : Bus) (pll : PllData) where
  pub act : Action → Sampler → Result (Text × Sampler)
  act (round now) s = do (ret, s') ← roll_buffer scale smc pll now s; ok ([], s')
  act read s = do
    (text, ring) ← micstat_show_stat printf s.ring
    ok (text, record s { ring = ring })
  act (clear buf count) s = ok ([], record s { ring = (micstat_store_clear buf count s.ring).1 })

  -- The text that the readers get, all together.
  pub run : List Action → Sampler → Result (Text × Sampler)
  run [] s = ok ([], s)
  run (a ∷ acts) s = do (text, mid) ← act a s; (more, s') ← run acts mid; ok (text ++ more, s')

  abbrev Delivers : Sampler → List ℕ → Result (Text × Sampler) → Type 0
  Delivers s begun r =
      (text : Text) × (s' : Sampler) × (brought : List (List ℕ)) × (delivered : List (List ℕ)) × (r
        ≡ ok (text, s'))
      × IsSampler s'
      × (map time_of brought ≡ begun)
      × (text ≡ concat (map line delivered))
      × Sublist (delivered ++ samples s'.ring) (samples s.ring ++ brought)

  act-Delivers : (a : Action) (s : Sampler) → IsSampler s → Delivers s (times (a ∷ [])) (act a s)
  unfolding act
  act-Delivers (round now) s v =
      let (s', e, v', kept, next, after) = micstat_roll_buffer-IsSampler scale smc pll now s v in
      let row = (restart_counters scale smc pll now s.device s.counters).0 in
      let values =
        ap (restart_counters scale smc pll now s.device) v.shape
        ∙ restart_counters_lem scale smc pll now s.device v.events in
      (
        [],
        s',
        row ∷ [],
        [],
        rw e refl,
        v',
        ap (λ r. time_of r.0 ∷ []) values,
        refl,
        rw kept (append-Sublist nbuf (samples s.ring) row),
      )
  act-Delivers read s v =
      let (text, ring, e, d) =
        drain_lem ncnt nbuf (print_buffer printf) line (micstat_print_buffer-Prints printf)
          s.ring.buffer_size page_size s.ring v.in_order refl (omega arith) in
      (
        text,
        record s { ring = ring },
        [],
        take d.k (samples s.ring),
        rw e refl,
        record { events = v.events; shape = v.shape; width = v.width; in_order = d.valid },
        refl,
        d.printed,
        rw (d.kept, take-drop d.k (samples s.ring), append-nil (samples s.ring))
            (Sublist.refl (samples s.ring)),
      )
  act-Delivers (clear buf count) s v =
      let (valid, which) = micstat_store_clear_lem buf count s.ring v.in_order in
      (
        [],
        record s { ring = (micstat_store_clear buf count s.ring).1 },
        [],
        [],
        refl,
        record { events = v.events; shape = v.shape; width = v.width; in_order = valid },
        refl,
        refl,
        elim which [
          | inl (asked, returned, none_held) ↦ rw none_held (nil-sublist _)
          | inr (other, returned, same) ↦
              rw (same, append-nil (samples s.ring)) (Sublist.refl (samples s.ring))
        ],
      )

  times-cons : (a : Action) (acts : List Action) → times (a ∷ acts) ≡ times (a ∷ []) ++ times acts
  times-cons (round now) acts = refl
  times-cons read acts = refl
  times-cons (clear buf count) acts = refl

  -- From statics in order, in whatever order the thread runs rounds, `stat` is read and `clear` is
  -- written, nothing fails, and the statics stay in order. The thread brings one row for each of its
  -- rounds, with the time of that round. What all readers get together is the whole lines of some
  -- rows; these, and after them the rows held at the end, are rows held at the start or brought
  -- since, none twice, and in that order.
  pub micstat_history-Delivers :
      (acts : List Action) (s : Sampler)
      → IsSampler s
      → (text : Text) × (s' : Sampler) × (brought : List (List ℕ)) × (delivered : List (List ℕ))
        × (run acts s ≡ ok (text, s'))
        × IsSampler s'
        × (map time_of brought ≡ times acts)
        × (text ≡ concat (map line delivered))
        × Sublist (delivered ++ samples s'.ring) (samples s.ring ++ brought)
  unfolding run
  micstat_history-Delivers [] s v = (
    [],
    s,
    [],
    [],
    refl,
    v,
    refl,
    refl,
    rw (append-nil (samples s.ring)) (Sublist.refl (samples s.ring)),
  )
  micstat_history-Delivers (a ∷ acts) s v =
      let (text, mid, rows, d, e, v', at, said, order) = act-Delivers a s v in
      let (more, s', rows', d', e', v'', at', said', order') =
        micstat_history-Delivers acts mid v' in
      (
        text ++ more,
        s',
        rows ++ rows',
        d ++ d',
        rw (e, e') refl,
        v'',
        map-append time_of rows rows' ∙ ap₂ ◌++◌ at at' ∙ sym (times-cons a acts),
        ap₂ ◌++◌ said said' ∙ sym (concat-map_append line d d'),
        Sublist-chain d (samples mid.ring) (samples s.ring) rows d' (samples s'.ring) rows' order
            order',
      )

-- ===== src/Xstat/History/Delivers.antt =====
-- What the readers of a node get, in any history of it.
use mathlib.Core.List.{Sublist, map-append}
use mathlib.Core.List.Sublist
use xstats.Base.{ℕ, ◌≡◌, refl, sym, ap, ap₂, ◌∙◌, List, [], ◌∷◌, ◌++◌, map, append-nil, concat, All}
use xstats.Base.Text.{Text}
use xstats.Kernel.{ok}
use xstats.Kernel.Printf.{Scnprintf}
use xstats.Page.History.{concat-map_append, Sublist-chain}
use xstats.Xstat.Node.Roll.{field, samples}
use xstats.Xstat.Show.Line.{line_text}
use xstats.Xstat.History.{
  State, Action, roll, receive, read, reset, times, IsBytes, act, run, IsLive,
}
use xstats.Xstat.History.Same.{Same, line_text-Same}
use xstats.Xstat.History.Moves.{
  Delivers, roll-Delivers, receive-Delivers, read-Delivers, reset-Delivers,
}

module _ (printf : Scnprintf) (scale : ℕ → ℕ → ℕ → ℕ) where
  act-Delivers :
      (a : Action) (s : State)
      → IsBytes a
      → IsLive s
      → Delivers s (times (a ∷ [])) (act printf scale a s)
  act-Delivers (roll hw) s h v = roll-Delivers printf scale hw s v
  act-Delivers (receive g sensor payload) s h v =
      receive-Delivers printf scale g sensor payload s h v
  act-Delivers read s h v = read-Delivers printf scale s v
  act-Delivers (reset count) s h v = reset-Delivers printf scale count s v

  times-cons : (a : Action) (acts : List Action) → times (a ∷ acts) ≡ times (a ∷ []) ++ times acts
  times-cons (roll hw) acts = refl
  times-cons (receive g sensor payload) acts = refl
  times-cons read acts = refl
  times-cons (reset count) acts = refl

  -- From a node whose thread samples and sensors within their C types, in whatever order its thread
  -- runs rounds, responses of bytes come in, `stat` is read and `reset` is written, nothing fails and
  -- the node goes on. The thread brings one row for each of its rounds, with the time of that round.
  -- What all readers get together is the whole lines of some rows; these, and after them the rows held
  -- at the end, are rows held at the start or brought since, none twice, and in that order.
  pub xstat_history-Delivers :
      (acts : List Action) (s : State)
      → All IsBytes acts
      → IsLive s
      → (text : Text) × (s' : State) × (brought : List (List ℕ)) × (delivered : List (List ℕ))
        × (run printf scale acts s ≡ ok (text, s'))
        × IsLive s'
        × Same s.groups s'.groups
        × (map (field 0) brought ≡ times acts)
        × (text ≡ concat (map (line_text s.groups) delivered))
        × Sublist (delivered ++ samples s'.node) (samples s.node ++ brought)
  unfolding run
  xstat_history-Delivers [] s h v = (
    [],
    s,
    [],
    [],
    refl,
    v,
    λ g. refl,
    refl,
    refl,
    rw (append-nil (samples s.node)) (Sublist.refl (samples s.node)),
  )
  xstat_history-Delivers (a ∷ acts) s h v =
      let (text, mid, rows, d, e, live, same, at, said, order) = act-Delivers a s h.0 v in
      let (more, s', rows', d', e', live', same', at', said', order') =
        xstat_history-Delivers acts mid h.1 live in
      (
        text ++ more,
        s',
        rows ++ rows',
        d ++ d',
        rw (e, e') refl,
        live',
        λ g. same g ∙ same' g,
        map-append (field 0) rows rows' ∙ ap₂ ◌++◌ at at' ∙ sym (times-cons a acts),
        ap₂ ◌++◌ said
              (said' ∙ ap (λ f. concat (map f d')) (sym (line_text-Same s.groups mid.groups same)))
            ∙ sym (concat-map_append (line_text s.groups) d d'),
        Sublist-chain d (samples mid.node) (samples s.node) rows d' (samples s'.node) rows' order
            order',
      )

-- ===== src/Xstat/Life/Laws.antt =====
-- What each action in the life of a node keeps.
use mathlib.Core.List.{Sublist, map-append}
use mathlib.Core.List.Sublist
use xstats.Base.{
  ℕ, ◌≡◌, refl, sym, ap, ap₂, ◌∙◌, ◌⊎◌, List, [], ◌∷◌, ◌++◌, map, append-nil, append_shift, none,
  some, concat,
}
use xstats.Base.{All}
use xstats.Base.Sublists.{All-append}
use xstats.Kernel.{Result, ok}
use xstats.Page.History.{concat-map_append, Sublist-chain}
use xstats.Xstat.World.{Ctx, word, perf, ipmi, freed, Effect, release}
use xstats.Xstat.Ipmi.Sensors.{AreSensors}
use xstats.Xstat.Perf.{perf_exit}
use xstats.Xstat.Table.{node_counters}
use xstats.Xstat.Node.{Node}
use xstats.Xstat.Node.Slots.{Slots}
use xstats.Xstat.Node.Words.{AreWords}
use xstats.Xstat.Node.Roll.{IsSampling, field, samples}
use xstats.Xstat.Node.Lifecycle.{IsIdle}
use xstats.Xstat.Show.Line.{Wired, line_text}
use xstats.Xstat.History.Same.{Same, line_text-Same}
use xstats.Xstat.Life.{Phase, idle, woken, sampling, State, Outcome, nothing, and_then}

-- The releases that giving up the slots takes.
abbrev pub held_slots : List Ctx → List Effect
held_slots [] = []
held_slots (perf ctx ∷ slots) = perf_exit ctx ++ held_slots slots
held_slots (word n ∷ slots) = held_slots slots
held_slots (ipmi g ∷ slots) = held_slots slots
held_slots (freed ∷ slots) = held_slots slots

abbrev pub held : State → List Effect
held s = held_slots s.node.ctxs

-- A node that does not sample: its slots hold no event, and rows are held only where the slots of the
-- sensors are set.
pub record IsResting (node : Node) : Type 0 where
  pub resting : IsIdle node
  pub none_held : held_slots node.ctxs ≡ []
  pub readable : Wired node_counters 0 node.ctxs ⊎ (node.ring.buffer_size ≡ 0)

abbrev pub HasThread : Node → Type 0
HasThread node = (thread : ℕ) × (node.task ≡ some thread)

abbrev pub InPhase : Phase → Node → Type 0
InPhase idle node = (node.task ≡ none) × IsResting node
InPhase woken node = HasThread node × IsResting node
InPhase sampling node = HasThread node × (slots : Slots) × IsSampling node slots

pub record IsAlive (s : State) : Type 0 where
  pub in_phase : InPhase s.phase s.node
  pub are_sensors : AreSensors s.groups

-- From `s` to `s'`, with the rows brought and those delivered.
pub record Keeps (s : State) (o : Outcome) (s' : State) : Type 0 where
  pub brought : List (List ℕ)
  pub delivered : List (List ℕ)
  pub alive : IsAlive s'
  pub same : Same s.groups s'.groups
  pub timed : map (field 0) brought ≡ o.times
  pub words : All AreWords brought
  pub printed : o.text ≡ concat (map (line_text s.groups) delivered)
  pub kept : Sublist (delivered ++ samples s'.node) (samples s.node ++ brought)
  pub counted : held s ++ map release o.made ≡ o.released ++ held s'

abbrev pub Goes : State → Result (Outcome × State) → Type 0
Goes s r = (o : Outcome) × (s' : State) × (r ≡ ok (o, s')) × Keeps s o s'

-- The rows, the events and the sensors stay.
pub Keeps-still :
    (s s' : State)
    → IsAlive s'
    → Same s.groups s'.groups
    → samples s'.node ≡ samples s.node
    → held s' ≡ held s
    → Keeps s nothing s'
Keeps-still s s' v same rows events = record {
  brought = [];
  delivered = [];
  alive = v;
  same = same;
  timed = refl;
  words = tt;
  printed = refl;
  kept = rw (rows, append-nil (samples s.node)) (Sublist.refl (samples s.node));
  counted = append-nil (held s) ∙ sym events;
}

pub Keeps-and_then :
    (s mid s' : State) (o o' : Outcome)
    → Keeps s o mid
    → Keeps mid o' s'
    → Keeps s (and_then o o') s'
Keeps-and_then s mid s' o o' k k' = record {
  brought = k.brought ++ k'.brought;
  delivered = k.delivered ++ k'.delivered;
  alive = k'.alive;
  same = λ g. k.same g ∙ k'.same g;
  timed = map-append (field 0) k.brought k'.brought ∙ ap₂ ◌++◌ k.timed k'.timed;
  words = All-append AreWords k.brought k'.brought k.words k'.words;
  printed =
      ap₂ ◌++◌ k.printed (
        k'.printed
        ∙ ap (λ f. concat (map f k'.delivered)) (sym (line_text-Same s.groups mid.groups k.same)))
      ∙ sym (concat-map_append (line_text s.groups) k.delivered k'.delivered);
  kept =
      Sublist-chain k.delivered (samples mid.node) (samples s.node) k.brought k'.delivered
        (samples s'.node) k'.brought k.kept k'.kept;
  counted =
      ap (λ l. held s ++ l) (map-append release o.made o'.made)
      ∙ append_shift (held s) (map release o.made) (map release o'.made) o.released (held mid)
          o'.released (held s') k.counted k'.counted;
}

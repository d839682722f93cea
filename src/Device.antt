-- ===== src/Device.antt =====
-- A module as the rest of the kernel sees it: a table of `struct class_attribute`, whose functions sysfs
-- calls, and a thread. The tables are micstat_attr of sbstat/sbstat.c, haswellstat/stat.c and
-- micstat/micstat.c.
pub mod Laws
use xstats.Base.{ℕ, Bool, List, [], ◌∷◌, ◌++◌, Option, none, some, get_elem?, ◌==◌, if◌then◌else◌}
use xstats.Base.Text.{Text}
use xstats.Kernel.{Result, ok, ◌>>=◌}

-- A write, with what the kernel gives meanwhile: the thread it makes, the time, and whether the thread
-- that runs finds `on` cleared and returns, where a set_off that clears it first has not yet called
-- kthread_stop.
pub record Request : Type 0 where
  pub buf : Text
  pub count : ℕ
  pub thread : ℕ
  pub now : ℕ
  pub returned : Bool

-- A write to an attribute gives the threads started and those stopped.
abbrev pub Show : Type 0 → Type 0
Show S = S → Result (Text × S)

abbrev pub Store : Type 0 → Type 0
Store S = Request → S → Result ((List ℕ × List ℕ) × S)

-- An element of `struct class_attribute`; a function pointer may be null.
pub record ClassAttribute (S : Type 0) : Type 0 where
  pub name : Text
  pub mode : ℕ
  pub show : Option (Show S)
  pub store : Option (Store S)

-- A round of the thread, or a call from sysfs of the attribute at a place of the table.
pub data Event (R : Type 0) : Type 0 where
  round : (now : R) → Event R
  show : (place : ℕ) → Event R
  store : (place : ℕ) (req : Request) → Event R

-- What came of some events: the times of the rounds that the thread made, the texts that were read
-- with the places of their attributes, the threads started and stopped.
pub record Outcome : Type 0 where
  pub times : List ℕ
  pub replies : List (ℕ × Text)
  pub started : List ℕ
  pub stopped : List ℕ

abbrev pub nothing : Outcome
nothing = record { times = []; replies = []; started = []; stopped = [] }

abbrev pub and_then : Outcome → Outcome → Outcome
and_then o o' = record {
  times = o.times ++ o'.times;
  replies = o.replies ++ o'.replies;
  started = o.started ++ o'.started;
  stopped = o.stopped ++ o'.stopped;
}

-- What the readers of one attribute got, all together.
abbrev pub text_of : ℕ → List (ℕ × Text) → Text
text_of place [] = []
text_of place ((i, text) ∷ replies) = (if i == place then text else []) ++ text_of place replies

abbrev pub replied : ℕ → Text → Outcome
replied place text = record nothing { replies = (place, text) ∷ [] }

abbrev pub threaded : List ℕ × List ℕ → Outcome
threaded changed = record nothing { started = changed.0; stopped = changed.1 }

-- An attribute without the function is not called.
module _ {S : Type 0} where
  abbrev pub call_show : ℕ → Option (Show S) → S → Result (Outcome × S)
  call_show place none s = ok (nothing, s)
  call_show place (some f) s = f s >>= λ (text, s'). ok (replied place text, s')

  abbrev pub call_store : Option (Store S) → Request → S → Result (Outcome × S)
  call_store none req s = ok (nothing, s)
  call_store (some f) req s = f req s >>= λ (changed, s'). ok (threaded changed, s')

  -- The attribute at a place, if the table has one.
  abbrev pub show_at : ℕ → Option (ClassAttribute S) → S → Result (Outcome × S)
  show_at place none s = ok (nothing, s)
  show_at place (some a) s = call_show place a.show s

  abbrev pub store_at : Option (ClassAttribute S) → Request → S → Result (Outcome × S)
  store_at none req s = ok (nothing, s)
  store_at (some a) req s = call_store a.store req s

-- `roll` is a round of the thread, with the times of the rounds made: none where no thread runs.
module _ {R S : Type 0} (roll : R → S → Result (List ℕ × S)) (table : List (ClassAttribute S)) where
  pub step : Event R → S → Result (Outcome × S)
  step (round now) s = roll now s >>= λ (times, s'). ok (record nothing { times = times }, s')
  step (show place) s = show_at place (get_elem? table place) s
  step (store place req) s = store_at (get_elem? table place) req s

  pub run : List (Event R) → S → Result (Outcome × S)
  run [] s = ok (nothing, s)
  run (e ∷ es) s = do (o, mid) ← step e s; (o', s') ← run es mid; ok (and_then o o', s')

-- ===== src/Micstat/Load/Events.antt =====
-- The events that the counters of micstat hold, from loading to unloading, and what unloading needs.
use xstats.Base.{
  ℕ, inl, inr, ◌∷◌, ◌≤◌, ◌≡◌, refl, ap, ◌∙◌, true, false, none, List, [], Option, arith, leb,
  length-replicate,
}
use mathlib.Core.Path.{subst}
use xstats.Rollback.Laws.{Any, Keeps, of_all}
use xstats.Sbstat.Load.Events.{
  held_cells, obtained, AllFree-replicate, create_events-obtained, create_events-Obtains,
  create_events-Refuses, Obtains, Refuses, Refuses-none, perf_exit_lem,
}
use xstats.Micstat.Counters.{Counter, ts, intv, freq, temp, temp2, power, volt, oh, perf, zeroed}
use xstats.Micstat.Load.{perf_init, init, exit}

-- The events that a counter holds, and those it is handed.
abbrev pub held_one : Counter → List ℕ
held_one (perf config cells) = held_cells cells
held_one ts = []
held_one _ = []

abbrev pub handed_one : (nr_cpu_ids : ℕ) → (ℕ → ℕ → Option ℕ) → Counter → List ℕ
handed_one nr make (perf config cells) = obtained (make config) 0 nr
handed_one nr make ts = []
handed_one nr make _ = []

abbrev pub held : List Counter → List ℕ
held = of_all held_one

abbrev pub handed : (nr_cpu_ids : ℕ) → (ℕ → ℕ → Option ℕ) → List Counter → List ℕ
handed nr make = of_all (handed_one nr make)

pub leb-true : (a b : ℕ) → a ≤ b → leb a b ≡ true
leb-true a b h = ground arith

takes :
    (nr : ℕ) (make : ℕ → ℕ → Option ℕ) (c : Counter)
    → held_one (init nr make c).1 ≡ handed_one nr make c
unfolding init perf_init
takes nr make (perf config cells) =
    create_events-obtained (make config) 0 (zeroed nr) (AllFree-replicate nr)
    ∙ ap (obtained (make config) 0) (length-replicate nr _)
takes nr make ts = refl
takes nr make intv = refl
takes nr make freq = refl
takes nr make temp = refl
takes nr make temp2 = refl
takes nr make power = refl
takes nr make volt = refl
takes nr make oh = refl

exit_lem : (c : Counter) → ((exit c).1 ≡ held_one c) × (held_one (exit c).0 ≡ [])
unfolding exit
exit_lem (perf config cells) = perf_exit_lem cells
exit_lem ts = (refl, refl)
exit_lem intv = (refl, refl)
exit_lem freq = (refl, refl)
exit_lem temp = (refl, refl)
exit_lem temp2 = (refl, refl)
exit_lem power = (refl, refl)
exit_lem volt = (refl, refl)
exit_lem oh = (refl, refl)

pub counters-Keeps :
    (nr : ℕ) (make : ℕ → ℕ → Option ℕ) → Keeps (init nr make) exit held_one (handed_one nr make)
counters-Keeps nr make = record {
  takes = takes nr make;
  releases = λ c. (exit_lem c).0;
  frees = λ c. (exit_lem c).1;
}

-- The kernel makes every event that a counter asks for; it refuses one of them.
abbrev pub IsMade : (nr_cpu_ids : ℕ) → (ℕ → ℕ → Option ℕ) → Counter → Type 0
IsMade nr make (perf config cells) = Obtains (make config) 0 nr
IsMade nr make ts = Unit {0}
IsMade nr make _ = Unit {0}

abbrev pub IsRefused : (nr_cpu_ids : ℕ) → (ℕ → ℕ → Option ℕ) → Counter → Type 0
IsRefused nr make (perf config cells) = Refuses (make config) 0 nr
IsRefused nr make ts = ⊥
IsRefused nr make _ = ⊥

pub init-IsMade :
    (nr : ℕ) (make : ℕ → ℕ → Option ℕ) (c : Counter) → (init nr make c).0 ≡ true → IsMade nr make c
unfolding init perf_init
init-IsMade nr make (perf config cells) h =
    subst (Obtains (make config) 0) (length-replicate nr _)
      (create_events-Obtains (make config) 0 (zeroed nr) h)
init-IsMade nr make ts h = tt
init-IsMade nr make intv h = tt
init-IsMade nr make freq h = tt
init-IsMade nr make temp h = tt
init-IsMade nr make temp2 h = tt
init-IsMade nr make power h = tt
init-IsMade nr make volt h = tt
init-IsMade nr make oh h = tt

pub init-IsRefused :
    (nr : ℕ) (make : ℕ → ℕ → Option ℕ) (c : Counter)
    → (init nr make c).0 ≡ false
    → IsRefused nr make c
unfolding init perf_init
init-IsRefused nr make (perf config cells) h =
    subst (Refuses (make config) 0) (length-replicate nr _)
      (create_events-Refuses (make config) 0 (zeroed nr) h)
init-IsRefused nr make ts h = absurd (cc)
init-IsRefused nr make intv h = absurd (cc)
init-IsRefused nr make freq h = absurd (cc)
init-IsRefused nr make temp h = absurd (cc)
init-IsRefused nr make temp2 h = absurd (cc)
init-IsRefused nr make power h = absurd (cc)
init-IsRefused nr make volt h = absurd (cc)
init-IsRefused nr make oh h = absurd (cc)

-- Some event is refused, of some counter.
pub IsRefused-none :
    (nr : ℕ) (make : ℕ → ℕ → Option ℕ) (cs : List Counter)
    → Any (IsRefused nr make) cs
    → (config : ℕ) × (cpu : ℕ) × (make config cpu ≡ none)
IsRefused-none nr make [] h = absurd h
IsRefused-none nr make (perf config cells ∷ cs) (inl h) =
    let (cpu, refused) = Refuses-none (make config) 0 nr h in (config, cpu, refused)
IsRefused-none nr make (ts ∷ cs) (inl h) = absurd h
IsRefused-none nr make (intv ∷ cs) (inl h) = absurd h
IsRefused-none nr make (freq ∷ cs) (inl h) = absurd h
IsRefused-none nr make (temp ∷ cs) (inl h) = absurd h
IsRefused-none nr make (temp2 ∷ cs) (inl h) = absurd h
IsRefused-none nr make (power ∷ cs) (inl h) = absurd h
IsRefused-none nr make (volt ∷ cs) (inl h) = absurd h
IsRefused-none nr make (oh ∷ cs) (inl h) = absurd h
IsRefused-none nr make (c ∷ cs) (inr h) = IsRefused-none nr make cs h

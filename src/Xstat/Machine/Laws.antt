-- ===== src/Xstat/Machine/Laws.antt =====
-- What an event keeps at each place of the module.
use mathlib.Core.Path.{subst}
use xstats.Base.{ℕ, Bool, true, false, Option, none, some, ◌≡◌, sym, ◌∙◌}
use xstats.Kernel.{Result, ok, failed, fault, ◌>>=◌}
use xstats.Xstat.World.{IpmiSensors}
use xstats.Xstat.Ipmi.Sensors.{AreSensors}
use xstats.Xstat.Node.{Node}
use xstats.Xstat.Registry.{node_at}
use xstats.Xstat.Life
use xstats.Xstat.Life.{Phase, idle, woken, sampling, Outcome, nothing, and_then}
use xstats.Xstat.Life.Laws.{IsAlive, Keeps, Goes, Keeps-and_then}
use xstats.Xstat.Machine.{State, view}

-- A node has a thread where the module is on, and nowhere else.
abbrev pub Agrees : Bool → Phase → Type 0
Agrees true idle = ⊥
Agrees true woken = Unit {0}
Agrees true sampling = Unit {0}
Agrees false idle = Unit {0}
Agrees false woken = ⊥
Agrees false sampling = ⊥

-- A place without a node, or with one that is alive.
abbrev pub IsPlace : Bool → IpmiSensors → Phase → Option Node → Type 0
IsPlace on groups phase none = Unit {0}
IsPlace on groups phase (some node) = IsAlive (view groups phase node) × Agrees on phase

-- A node stays where it is, and no other comes.
abbrev pub PlaceKeeps :
    IpmiSensors → Phase → Option Node → Outcome → IpmiSensors → Phase → Option Node → Type 0
PlaceKeeps g p none o g' p' none = Unit {0}
PlaceKeeps g p none o g' p' (some node') = ⊥
PlaceKeeps g p (some node) o g' p' none = ⊥
PlaceKeeps g p (some node) o g' p' (some node') = Keeps (view g p node) o (view g' p' node')

abbrev pub place : State → ℕ → Option Node
place s i = node_at s.module_state.nodes i

pub record IsOperating (s : State) : Type 0 where
  pub places :
      (i : ℕ) → IsPlace s.module_state.ctrl_on s.module_state.groups (s.phases i) (place s i)
  pub are_sensors : AreSensors s.module_state.groups

abbrev pub KeepsAll : State → (ℕ → Outcome) → State → Type 0
KeepsAll s outs s' =
    (i : ℕ)
    → PlaceKeeps s.module_state.groups (s.phases i) (place s i) (outs i) s'.module_state.groups
        (s'.phases i) (place s' i)

abbrev pub Steps : State → Result ((ℕ → Outcome) × State) → Type 0
Steps s r =
    (outs : ℕ → Outcome) × (s' : State) × (r ≡ ok (outs, s')) × IsOperating s' × KeepsAll s outs s'

pub PlaceKeeps-and_then :
    (g g' g'' : IpmiSensors) (p p' p'' : Phase) (n n' n'' : Option Node) (o o' : Outcome)
    → PlaceKeeps g p n o g' p' n'
    → PlaceKeeps g' p' n' o' g'' p'' n''
    → PlaceKeeps g p n (and_then o o') g'' p'' n''
PlaceKeeps-and_then g g' g'' p p' p'' none none none o o' k k' = tt
PlaceKeeps-and_then g g' g'' p p' p'' none none (some n'') o o' k k' = k'
PlaceKeeps-and_then g g' g'' p p' p'' none (some n') n'' o o' k k' = absurd k
PlaceKeeps-and_then g g' g'' p p' p'' (some n) none n'' o o' k k' = absurd k
PlaceKeeps-and_then g g' g'' p p' p'' (some n) (some n') none o o' k k' = k'
PlaceKeeps-and_then g g' g'' p p' p'' (some n) (some n') (some n'') o o' k k' =
    Keeps-and_then (view g p n) (view g' p' n') (view g'' p'' n'') o o' k k'

-- What holds of a result, if there is one.
abbrev pub IfOk {ℓ κ} : {A : Type ℓ} → (A → Type κ) → Result A → Type κ
IfOk P (ok a) = P a
IfOk P failed = Unit
IfOk P fault = Unit

pub IfOk->>= {ℓ κ μ} :
    {A : Type ℓ} {B : Type κ} (P : B → Type μ) (r : Result A) (f : A → Result B)
    → ((a : A) → IfOk P (f a))
    → IfOk P (r >>= f)
IfOk->>= P (ok a) f h = h a
IfOk->>= P failed f h = tt
IfOk->>= P fault f h = tt

-- What an action that goes well keeps, it keeps up to the outcome that it has.
pub Goes-ok :
    (s s' : Life.State) (r : Result (Outcome × Life.State)) (o : Outcome)
    → Goes s r
    → r ≡ ok (o, s')
    → Keeps s o s'
Goes-ok s s' r o (o₁, s₁, e₁, k) e =
    subst (IfOk (λ (w : Outcome × Life.State). Keeps s w.0 w.1)) (sym e₁ ∙ e) k

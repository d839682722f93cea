-- ===== src/Xstat/Control/Period.antt =====
-- What a sequence of writes to `ctrl` and `period` keeps.
use xstats.Base.{
  ℕ, ◌+◌, ◌<◌, ◌≡◌, refl, ◌⊎◌, inl, inr, true, false, ◌&&◌, List, [], ◌∷◌, Option, none, some,
  arith, Option-cases, Bool-cases, ltb, leb, All,
}
use xstats.Base.Text.{Text, codes}
use xstats.Kernel.{Result, ok, ◌>>=◌}
use xstats.Xstat.Node.{Node}
use xstats.Xstat.Control.{
  Module, Wake, start_node, start_nodes, start_stat, stop_node, stop_nodes, stop_stat, starts_with,
  store_ctrl_attr, store_period_attr,
}
use xstats.Xstat.Control.Threads.{AllStopped}

-- A write to an attribute: its bytes and its count, and the threads that the kernel makes.
pub data Write : Type 0 where
  ctrl : (create : ℕ → Option ℕ) (buf : Text) (count : ℕ) → Write
  period : (buf : Text) → Write

module _ (parse : Text → Option ℕ) where
  abbrev pub store : Write → Module → Result Module
  store (ctrl create buf count) m = do (m', done) ← store_ctrl_attr create buf count m; ok m'
  store (period buf) m = ok (store_period_attr parse buf m)

  abbrev pub stores : List Write → Module → Result Module
  stores [] m = ok m
  stores (w ∷ ws) m = do m' ← store w m; stores ws m'

-- Every registered node has a thread.
abbrev pub AllRunning : List (Option Node) → Type 0
AllRunning [] = Unit {0}
AllRunning (none ∷ nodes) = AllRunning nodes
AllRunning (some node ∷ nodes) = ((thread : ℕ) × (node.task ≡ some thread)) × AllRunning nodes

-- The period is one that the sampling thread can use, and the nodes have threads while the module is
-- on, and none while it is off.
pub record IsControlled (m : Module) : Type 0 where
  pub period_range : (0 < m.ctrl_period) × (m.ctrl_period < 10000)
  pub tasks : ((m.ctrl_on ≡ true) × AllRunning m.nodes) ⊎ ((m.ctrl_on ≡ false) × AllStopped m.nodes)

-- The kernel refuses no thread.
abbrev pub Plentiful : (ℕ → Option ℕ) → Type 0
Plentiful create = (i : ℕ) → (thread : ℕ) × (create i ≡ some thread)

abbrev pub IsServed : Write → Type 0
IsServed (ctrl create buf count) = Plentiful create
IsServed (period buf) = Unit {0}

store_period_attr-IsControlled :
    (parse : Text → Option ℕ) (buf : Text) (m : Module)
    → IsControlled m
    → IsControlled (store_period_attr parse buf m)
unfolding store_period_attr
store_period_attr-IsControlled parse buf m v = elim (Option-cases (parse buf)) [
  | inl e ↦ rw (e, store_period_attr) v
  | inr (tmp, e) ↦ elim (Bool-cases (ltb 0 tmp && ltb tmp 10000)) [
    | inl fits ↦
        rw (e, store_period_attr, fits) record { period_range = ground arith; tasks = v.tasks }
    | inr out ↦ rw (e, store_period_attr, out) v
  ]
]

start_nodes-AllRunning :
    (create : ℕ → Option ℕ) (i : ℕ) (nodes : List (Option Node))
    → Plentiful create
    → AllRunning (start_nodes create i nodes).0
unfolding start_nodes start_node
start_nodes-AllRunning create i [] p = tt
start_nodes-AllRunning create i (none ∷ nodes) p = start_nodes-AllRunning create (i + 1) nodes p
start_nodes-AllRunning create i (some node ∷ nodes) p =
    rw (p i).1 (((p i).0, refl), start_nodes-AllRunning create (i + 1) nodes p)

start_stat-IsControlled :
    (create : ℕ → Option ℕ) (m : Module)
    → Plentiful create
    → IsControlled m
    → IsControlled (start_stat create m).0
unfolding start_stat
start_stat-IsControlled create m p v = elim v.tasks [
  | inl (on, running) ↦ rw on record { period_range = v.period_range; tasks = inl (refl, running) }
  | inr (off, idle) ↦ rw off record {
    period_range = v.period_range;
    tasks = inl (refl, start_nodes-AllRunning create 0 m.nodes p);
  }
]

stop_nodes-AllStopped :
    (nodes : List (Option Node))
    → AllRunning nodes
    → (nodes' : List (Option Node)) × (stopped : List ℕ) × (stop_nodes nodes ≡ ok (nodes', stopped))
      × AllStopped nodes'
unfolding stop_nodes stop_node
stop_nodes-AllStopped [] r = ([], [], refl, tt)
stop_nodes-AllStopped (none ∷ nodes) r =
    let (nodes', stopped, run, idle) = stop_nodes-AllStopped nodes r in
    (none ∷ nodes', stopped, rw run refl, idle)
stop_nodes-AllStopped (some node ∷ nodes) ((thread, e), r) =
    let (nodes', stopped, run, idle) = stop_nodes-AllStopped nodes r in
    (some (record node { task = none }) ∷ nodes', thread ∷ stopped, rw (e, run) refl, (refl, idle))

pub stop_stat-IsControlled :
    (m : Module)
    → IsControlled m
    → (m' : Module) × (stopped : List ℕ) × (stop_stat m ≡ ok (m', stopped))
      × IsControlled m'
      × (m'.ctrl_on ≡ false)
unfolding stop_stat
stop_stat-IsControlled m v = elim v.tasks [
  | inl (on, running) ↦
      let (nodes, stopped, run, idle) = stop_nodes-AllStopped m.nodes running in
      (
        record m { ctrl_on = false; nodes = nodes },
        stopped,
        rw (on, run) refl,
        record { period_range = v.period_range; tasks = inr (refl, idle) },
        refl,
      )
  | inr (off, idle) ↦ (m, [], rw off refl, v, off)
]

store_ctrl_attr-IsControlled :
    (create : ℕ → Option ℕ) (buf : Text) (count : ℕ) (m : Module)
    → Plentiful create
    → IsControlled m
    → (m' : Module) × (done : List Wake × List ℕ) × (store_ctrl_attr create buf count m
        ≡ ok (m', done))
      × IsControlled m'
unfolding store_ctrl_attr
store_ctrl_attr-IsControlled create buf count m p v =
    let started = start_stat-IsControlled create m p v in
    elim (Bool-cases (leb 2 count && starts_with buf (codes "on"))) [
      | inl on ↦ elim (Bool-cases (leb 3 count && starts_with buf (codes "off"))) [
        | inl off ↦
            let (m', stopped, run, v', _) =
              stop_stat-IsControlled (start_stat create m).0 started in
            (m', ((start_stat create m).1, stopped), rw (on, off, run) refl, v')
        | inr more ↦
            ((start_stat create m).0, ((start_stat create m).1, []), rw (on, more) refl, started)
      ]
      | inr stay ↦ elim (Bool-cases (leb 3 count && starts_with buf (codes "off"))) [
        | inl off ↦
            let (m', stopped, run, v', _) = stop_stat-IsControlled m v in
            (m', ([], stopped), rw (stay, off, run) refl, v')
        | inr more ↦ (m, ([], []), rw (stay, more) refl, v)
      ]
    ]

store-IsControlled :
    (parse : Text → Option ℕ) (w : Write) (m : Module)
    → IsServed w
    → IsControlled m
    → (m' : Module) × (store parse w m ≡ ok m') × IsControlled m'
store-IsControlled parse (ctrl create buf count) m p v =
    let (m', done, run, v') = store_ctrl_attr-IsControlled create buf count m p v in
    (m', rw run refl, v')
store-IsControlled parse (period buf) m p v =
    (store_period_attr parse buf m, refl, store_period_attr-IsControlled parse buf m v)

-- Whatever is written to `ctrl` and `period`, in whatever order, no write faults, the period stays
-- above 0 and below 10000, and every registered node has a thread while the module is on and none
-- while it is off, if this held before and the kernel refuses no thread.
pub stores-IsControlled :
    (parse : Text → Option ℕ) (ws : List Write) (m : Module)
    → All IsServed ws
    → IsControlled m
    → (m' : Module) × (stores parse ws m ≡ ok m') × IsControlled m'
stores-IsControlled parse [] m p v = (m, refl, v)
stores-IsControlled parse (w ∷ ws) m (p, ps) v =
    let (mid, first, v') = store-IsControlled parse w m p v in
    let (m', rest, v'') = stores-IsControlled parse ws mid ps v' in (m', rw (first, rest) refl, v'')

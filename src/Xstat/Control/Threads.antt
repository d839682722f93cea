-- ===== src/Xstat/Control/Threads.antt =====
-- Starting and stopping the threads.
use xstats.Base.{
  ℕ, ◌+◌, ◌≡◌, refl, sym, ap, ◌⊎◌, inl, inr, true, false, List, [], ◌∷◌, Option, none, some,
  Option-cases,
}
use xstats.Kernel.{ok, fault}
use xstats.Xstat.Node.{Node}
use xstats.Xstat.Control.{
  Module, Wake, start_node, start_nodes, start_stat, stop_node, stop_nodes, stop_stat,
}

-- No registered node has a thread.
abbrev pub AllStopped : List (Option Node) → Type 0
AllStopped [] = Unit {0}
AllStopped (none ∷ nodes) = AllStopped nodes
AllStopped (some node ∷ nodes) = (node.task ≡ none) × AllStopped nodes

-- The kernel makes a thread for every registered node from `i` on.
abbrev pub Creates : (ℕ → Option ℕ) → ℕ → List (Option Node) → Type 0
Creates create i [] = Unit {0}
Creates create i (none ∷ nodes) = Creates create (i + 1) nodes
Creates create i (some node ∷ nodes) =
    ((thread : ℕ) × (create i ≡ some thread)) × Creates create (i + 1) nodes

-- It makes none for some registered node.
abbrev pub Refuses : (ℕ → Option ℕ) → ℕ → List (Option Node) → Type 0
Refuses create i [] = ⊥
Refuses create i (none ∷ nodes) = Refuses create (i + 1) nodes
Refuses create i (some node ∷ nodes) = (create i ≡ none) ⊎ Refuses create (i + 1) nodes

abbrev pub threads : List Wake → List ℕ
threads [] = []
threads (w ∷ ws) = w.thread ∷ threads ws

stop_nodes-start_nodes :
    (create : ℕ → Option ℕ) (i : ℕ) (nodes : List (Option Node))
    → AllStopped nodes
    → Creates create i nodes
    → let (nodes', woken) = start_nodes create i nodes in
      stop_nodes nodes' ≡ ok (nodes, threads woken)
unfolding start_nodes stop_nodes start_node stop_node
stop_nodes-start_nodes create i [] s c = refl
stop_nodes-start_nodes create i (none ∷ nodes) s c =
    rw (stop_nodes-start_nodes create (i + 1) nodes s c) refl
stop_nodes-start_nodes create i (some node ∷ nodes) (idle, s) ((thread, made), c) =
    let same : (record node { task = none }) ≡ node =
      ap (λ t. record node { task = t }) (sym idle) in
    rw (made, stop_nodes-start_nodes create (i + 1) nodes s c)
      (ap (λ n. ok (some n ∷ nodes, thread ∷ threads (start_nodes create (i + 1) nodes).1)) same)

-- Stopping after a start stops exactly the threads that were woken, in order, and leaves the module
-- as it was, where it was off with no thread and a thread could be made for every node.
pub stop_stat-start_stat :
    (create : ℕ → Option ℕ) (m : Module)
    → m.ctrl_on ≡ false
    → AllStopped m.nodes
    → Creates create 0 m.nodes
    → let (m', woken) = start_stat create m in stop_stat m' ≡ ok (m, threads woken)
unfolding start_stat stop_stat
stop_stat-start_stat create m off s c = rw (off, stop_nodes-start_nodes create 0 m.nodes s c) refl

stop_nodes-fault :
    (create : ℕ → Option ℕ) (i : ℕ) (nodes : List (Option Node))
    → Refuses create i nodes
    → stop_nodes (start_nodes create i nodes).0 ≡ fault
unfolding start_nodes stop_nodes start_node stop_node
stop_nodes-fault create i [] r = absurd r
stop_nodes-fault create i (none ∷ nodes) r = rw (stop_nodes-fault create (i + 1) nodes r) refl
stop_nodes-fault create i (some node ∷ nodes) (inl e) = rw e refl
stop_nodes-fault create i (some node ∷ nodes) (inr r) = elim (Option-cases (create i)) [
  | inl e ↦ rw e refl
  | inr (thread, e) ↦ rw (e, stop_nodes-fault create (i + 1) nodes r) refl
]

-- Where no thread could be made for some node, stopping dereferences that node's null task.
pub stop_stat-fault :
    (create : ℕ → Option ℕ) (m : Module)
    → m.ctrl_on ≡ false
    → Refuses create 0 m.nodes
    → stop_stat (start_stat create m).0 ≡ fault
unfolding start_stat stop_stat
stop_stat-fault create m off r = rw (off, stop_nodes-fault create 0 m.nodes r) refl

-- While it is on, starting again changes nothing.
pub start_stat-on :
    (create : ℕ → Option ℕ) (m : Module) → m.ctrl_on ≡ true → start_stat create m ≡ (m, [])
unfolding start_stat
start_stat-on create m on = rw on refl

-- What becomes of one node that is given a thread, and of one whose thread is stopped.
pub start_node-task :
    (thread : ℕ) (node : Node)
    → (start_node (some thread) node).0 ≡ (record node { task = some thread })
unfolding start_node
start_node-task thread node = refl

pub stop_node-task :
    (node : Node) (thread : ℕ)
    → node.task ≡ some thread
    → stop_node node ≡ ok (record node { task = none }, thread)
unfolding stop_node
stop_node-task node thread e =
    ap (λ t. elim t [ none ↦ fault | some running ↦ ok (record node { task = none }, running) ]) e

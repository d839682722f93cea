-- ===== src/Rollback.antt =====
-- The loops over `counters` of micstat_init and micstat_exit, which sbstat/sbstat.c, haswellstat/stat.c
-- and micstat/micstat.c have in the same words, over any table.
pub mod Laws
use xstats.Base.{ℕ, Bool, true, false, List, [], ◌∷◌, ◌++◌, if◌then◌else◌, ◌==◌}

-- How loading ends: `err` is -1, 0 or what class_register returns.
pub data Loaded : Type 0 where
  cnt_init_failed class_failed loaded : Loaded

-- `init c` is `true` for the result 0; `exit c` gives the events released, in order.
module _ {ℓ} {A : Type ℓ} (exit : A → A × List ℕ) where
  -- micstat_exit's last loop.
  pub exit_counters : List A → List A × List ℕ
  exit_counters [] = ([], [])
  exit_counters (c ∷ cs) =
      let (c', first) = exit c in
      let (rest, others) = exit_counters cs in (c' ∷ rest, first ++ others)

module _ {ℓ} {A : Type ℓ} (init : A → Bool × A) (exit : A → A × List ℕ) where
  -- The loop of micstat_init with its `goto fail_cnt_init`: the counters passed are exited again, the
  -- one that failed first, then those before it, back to the first; `released` comes from the later
  -- ones.
  pub init_counters : List A → (Bool × List A) × List ℕ
  init_counters [] = ((true, []), [])
  init_counters (c ∷ cs) =
      let (made, c') = init c in
      let ((all_made, rest), released) = init_counters cs in
      let back = exit c' in
      if made
      then if all_made
        then ((true, c' ∷ rest), [])
        else ((false, back.0 ∷ rest), released ++ back.1)
      else ((false, back.0 ∷ cs), back.1)

  -- Where class_register fails, `goto fail_class` skips the exits.
  pub load : (registered : ℕ) → List A → Loaded × (List A × List ℕ)
  load registered cs =
      let ((made, cs'), released) = init_counters cs in
      if made
      then (if registered == 0 then (loaded, (cs', [])) else (class_failed, (cs', [])))
      else (cnt_init_failed, (cs', released))

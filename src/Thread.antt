-- ===== src/Thread.antt =====
-- kthread_function of sbstat/sbstat.c, haswellstat/stat.c and micstat/micstat.c, which is the same loop
-- around each module's roll_buffer.
use xstats.Base.{
  ℕ, ◌≡◌, refl, sym, ap, ◌∙◌, inl, inr, Bool, List, [], ◌∷◌, get_or, sub64, Bool-cases,
  if◌then◌else◌,
}
use xstats.Kernel.{Result, ok, ◌>>=◌}
use xstats.Sbstat.{Trace, time_to_sleep}

-- What a round of the loop finds: `on` as it is tested, what roll_buffer reads, the period, and what
-- kthread_should_stop tells after the sleep.
pub record Round {ℓ} (R : Type ℓ) : Type ℓ where
  pub on : Bool
  pub now : R
  pub period : ℕ
  pub should_stop : Bool

-- The rounds that roll.
abbrev pub executed {ℓ} : {R : Type ℓ} → List (Round R) → List R
executed [] = []
executed (r ∷ rs) =
    let rest = executed rs in if r.on then r.now ∷ (if r.should_stop then [] else rest) else []

-- `rounds` are those that were begun so far. With the statics, the times slept.
module _ {ℓ κ} {R : Type ℓ} {S : Type κ} (roll : R → S → Result S) (trace : S → Trace) where
  unfoldable pub kthread_function : List (Round R) → S → Result (List ℕ × S)
  kthread_function [] s = ok ([], s)
  kthread_function (r ∷ rs) s =
      let round : Result (List ℕ × S) = (do
        s' ← roll r.now s
        let rest = kthread_function rs s'
        (slept, s'') ← if r.should_stop then ok ([], s') else rest
        ok (time_to_sleep r.period (trace s') ∷ slept, s'')) in
      if r.on then round else ok ([], s)

-- A row of its round: its first word is the time at which the round began, and its second the time
-- since the round before began.
abbrev pub Row {ℓ} : {R : Type ℓ} → (R → ℕ) → ℕ → R → List ℕ → Type 0
Row started before now row =
    (get_or row 0 0 ≡ started now) × (get_or row 1 0 ≡ sub64 (started now) before)

-- Rows of successive rounds.
abbrev pub Follow {ℓ} : {R : Type ℓ} → (R → ℕ) → ℕ → List R → List (List ℕ) → Type 0
Follow started before [] [] = Unit {0}
Follow started before [] (row ∷ rows) = ⊥
Follow started before (now ∷ nows) [] = ⊥
Follow started before (now ∷ nows) (row ∷ rows) =
    Row started before now row × Follow started (started now) nows rows

abbrev pub appends {ℓ} : {A : Type ℓ} → (List A → A → List A) → List A → List A → List A
appends log q [] = q
appends log q (x ∷ xs) = appends log (log q x) xs

-- What a module's roll_buffer keeps: it stores one row of its round in the log of the rows held.
pub record Rolls {ℓ κ} {R : Type ℓ} {S : Type κ} (roll : R → S → Result S) (trace : S → Trace)
    (started : R → ℕ) (samples : S → List (List ℕ)) (log : List (List ℕ) → List ℕ → List (List ℕ))
    (InOrder : S → Type 0) : Type (ℓ ⊔ κ) where
  pub rolls :
      (now : R) (s : S)
      → InOrder s
      → (s' : S) × (row : List ℕ) × (roll now s ≡ ok s')
        × InOrder s'
        × (samples s' ≡ log (samples s) row)
        × Row started (trace s).st_current now row
        × ((trace s').st_current ≡ started now)

module _ {ℓ κ} {R : Type ℓ} {S : Type κ} {roll : R → S → Result S} {trace : S → Trace}
    {started : R → ℕ} {samples : S → List (List ℕ)} {log : List (List ℕ) → List ℕ → List (List ℕ)}
    {InOrder : S → Type 0} (k : Rolls roll trace started samples log InOrder) where
  pub kthread_function_rolls :
      (rs : List (Round R)) (s : S)
      → InOrder s
      → (slept : List ℕ) × (s' : S) × (rows : List (List ℕ)) × (kthread_function roll trace rs s
          ≡ ok (slept, s'))
        × InOrder s'
        × Follow started (trace s).st_current (executed rs) rows
        × (samples s' ≡ appends log (samples s) rows)
  unfolding kthread_function
  kthread_function_rolls [] s v = ([], s, [], refl, v, tt, refl)
  kthread_function_rolls (r ∷ rs) s v = elim (Bool-cases r.on) [
    | inr off ↦ ([], s, [], rw off refl, v, rw off tt, refl)
    | inl on ↦
        let (mid, row, e, v', kept, first, next) = k.rolls r.now s v in
        let slept = time_to_sleep r.period (trace mid) in
        elim (Bool-cases r.should_stop) [
          | inl stop ↦ (
            slept ∷ [],
            mid,
            row ∷ [],
            rw (on, e, stop) refl,
            v',
            rw (on, stop) (first, tt),
            kept,
          )
          | inr go_on ↦
              let (more, s', rows, e', v'', after, all) = kthread_function_rolls rs mid v' in
              (
                slept ∷ more,
                s',
                row ∷ rows,
                rw (on, e, go_on, e') refl,
                v'',
                rw (on, go_on) (first, rw (sym next) after),
                all ∙ ap (λ q. appends log q rows) kept,
              )
        ]
  ]

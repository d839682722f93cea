-- ===== src/Ring/Window.antt =====
-- The rows from the oldest on, read round the end of the array.
use native.Mathlib.Nat.{mod-add-mod, mod-eq_of_lt, mod-eq-sub-mod}
use native.Mathlib.Decide.{dec_lt}
use xstats.Base.{
  ℕ, zero, suc, ◌+◌, ◌-◌, ◌*◌, ◌%◌, ◌≤◌, ◌<◌, ◌≡◌, ◌≢◌, refl, sym, ap, ap₂, ◌∙◌, ◌⊎◌, inl, inr,
  List, [], ◌∷◌, ◌++◌, arith, length,
}
use xstats.Base.Rows.{write_run, read_run-write_run, read_run-write_run_ne}
use xstats.Ring.{row_at}

-- A remainder of a number below twice the divisor.
pub mod_once : (x n : ℕ) → x < n + n → ((x < n) × (x % n ≡ x)) ⊎ ((n ≤ x) × (x % n ≡ x - n))
mod_once x n h = elim (dec_lt x n) [
  | yes p ↦ inl (p, mod-eq_of_lt p)
  | no p ↦
      inr (omega arith, mod-eq-sub-mod {n = x} {m = n} (omega arith) ∙ mod-eq_of_lt (omega arith))
]

-- Places fewer than `n` apart on a ring of `n` are different.
mod_ne : (b i j n : ℕ) → b < n → i < j → j ≤ n → j < i + n → (b + i) % n ≢ (b + j) % n
mod_ne b i j n h p q l e =
    ground (arith, mod_once (b + i) n (omega arith), mod_once (b + j) n (omega arith))

pub mul_mono : (i j n : ℕ) → i ≤ j → i * n ≤ j * n
mul_mono i j n h = grind arith

-- Two rows of the array do not meet.
rows_apart : (ncnt i j : ℕ) → i ≢ j → (i * ncnt + ncnt ≤ j * ncnt) ⊎ (j * ncnt + ncnt ≤ i * ncnt)
rows_apart ncnt i j h = elim (dec_lt i j) [
  | yes p ↦ inl (omega (arith, mul_mono (i + 1) j ncnt (omega arith)))
  | no p ↦ inr (omega (arith, mul_mono (j + 1) i ncnt (omega arith)))
]

module _ (ncnt nbuf : ℕ) where
  -- `n` rows from the `k`-th after `base` on.
  abbrev pub window : List ℕ → ℕ → ℕ → ℕ → List (List ℕ)
  window buffer base k zero = []
  window buffer base k (suc n) =
      row_at ncnt buffer ((base + k) % nbuf) ∷ window buffer base (k + 1) n

  pub length-window : (buffer : List ℕ) (base k n : ℕ) → length (window buffer base k n) ≡ n
  length-window buffer base k zero = refl
  length-window buffer base k (suc n) = ap suc (length-window buffer base (k + 1) n)

  pub window-snoc :
      (buffer : List ℕ) (base k n : ℕ)
      → window buffer base k (suc n)
        ≡ window buffer base k n ++ (row_at ncnt buffer ((base + (k + n)) % nbuf) ∷ [])
  window-snoc buffer base k zero =
      ap (λ j. row_at ncnt buffer ((base + j) % nbuf) ∷ []) (omega arith)
  window-snoc buffer base k (suc n) =
      ap (λ t. row_at ncnt buffer ((base + k) % nbuf) ∷ t)
        (window-snoc buffer base (k + 1) n
          ∙ ap (λ j. window buffer base (k + 1) n ++ (row_at ncnt buffer ((base + j) % nbuf) ∷ []))
              (omega arith))

  -- Moving the base on by one.
  pub window-shift :
      (buffer : List ℕ) (base k n : ℕ)
      → window buffer ((base + 1) % nbuf) k n ≡ window buffer base (k + 1) n
  window-shift buffer base k zero = refl
  window-shift buffer base k (suc n) =
      ap₂ ◌∷◌
        (ap (row_at ncnt buffer) (mod-add-mod (base + 1) nbuf k ∙ ap (λ j. j % nbuf) (omega arith)))
        (window-shift buffer base (k + 1) n)

  row_at-write_run_ne :
      (buffer : List ℕ) (i j : ℕ) (row : List ℕ)
      → length row ≡ ncnt
      → j ≢ i
      → row_at ncnt (write_run buffer (i * ncnt) row) j ≡ row_at ncnt buffer j
  row_at-write_run_ne buffer i j row e h =
      read_run-write_run_ne buffer (i * ncnt) row (j * ncnt) ncnt
        (ground (arith, rows_apart ncnt i j (λ q. h (sym q))))

  pub row_at-write_run :
      (buffer : List ℕ) (i : ℕ) (row : List ℕ)
      → length row ≡ ncnt
      → i < nbuf
      → length buffer ≡ ncnt * nbuf
      → row_at ncnt (write_run buffer (i * ncnt) row) i ≡ row
  row_at-write_run buffer i row e h l =
      read_run-write_run buffer (i * ncnt) row ncnt (sym e) (grind arith)

  -- Writing a row leaves a window alone that does not hold it.
  pub window-write_run :
      (buffer : List ℕ) (base k n m i : ℕ) (row : List ℕ)
      → length row ≡ ncnt
      → base < nbuf
      → i ≡ (base + m) % nbuf
      → k + n ≤ m
      → m ≤ nbuf
      → m < k + nbuf
      → window (write_run buffer (i * ncnt) row) base k n ≡ window buffer base k n
  window-write_run buffer base k zero m i row e b at le top lo = refl
  window-write_run buffer base k (suc n) m i row e b at le top lo =
      ap₂ ◌∷◌
        (row_at-write_run_ne buffer i ((base + k) % nbuf) row e
          (λ q. mod_ne base k m nbuf b (omega arith) top lo (q ∙ at)))
        (window-write_run buffer base (k + 1) n m i row e b at (omega arith) top (omega arith))

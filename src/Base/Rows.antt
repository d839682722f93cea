-- ===== src/Base/Rows.antt =====
-- A flat array of words read and written a run at a time, as `memcpy` does.
use xstats.Base.{
  ℕ, zero, suc, ◌+◌, ◌≤◌, ◌<◌, ◌≡◌, refl, ap, ap₂, ◌∙◌, ◌⊎◌, List, [], ◌∷◌, arith, length, get_or,
  set, length-set, get_or-set_self, get_or-set_ne,
}

-- `n` words from offset `off` on.
abbrev pub read_run : List ℕ → ℕ → ℕ → List ℕ
read_run buf off zero = []
read_run buf off (suc n) = get_or buf off 0 ∷ read_run buf (off + 1) n

-- `memcpy(&buf[off], src, sizeof src)`
pub write_run : List ℕ → ℕ → List ℕ → List ℕ
write_run buf off [] = buf
write_run buf off (x ∷ xs) = write_run (set buf off x) (off + 1) xs

pub length-write_run :
    (buf : List ℕ) (off : ℕ) (src : List ℕ) → length (write_run buf off src) ≡ length buf
unfolding write_run
length-write_run buf off [] = refl
length-write_run buf off (x ∷ xs) =
    length-write_run (set buf off x) (off + 1) xs ∙ length-set buf off x

pub length-read_run : (buf : List ℕ) (off n : ℕ) → length (read_run buf off n) ≡ n
length-read_run buf off zero = refl
length-read_run buf off (suc n) = ap suc (length-read_run buf (off + 1) n)

-- A word outside the run written keeps its value.
pub get_or-write_run :
    (buf : List ℕ) (off : ℕ) (src : List ℕ) (j : ℕ)
    → (j < off) ⊎ (off + length src ≤ j)
    → get_or (write_run buf off src) j 0 ≡ get_or buf j 0
unfolding write_run
get_or-write_run buf off [] j h = refl
get_or-write_run buf off (x ∷ xs) j h =
    get_or-write_run (set buf off x) (off + 1) xs j (omega arith)
    ∙ get_or-set_ne buf off j x 0 (omega arith)

-- What was written is read back.
pub read_run-write_run :
    (buf : List ℕ) (off : ℕ) (src : List ℕ) (n : ℕ)
    → n ≡ length src
    → off + n ≤ length buf
    → read_run (write_run buf off src) off n ≡ src
unfolding write_run
read_run-write_run buf off [] zero e h = refl
read_run-write_run buf off [] (suc n) e h = absurd (omega arith)
read_run-write_run buf off (x ∷ xs) zero e h = absurd (omega arith)
read_run-write_run buf off (x ∷ xs) (suc n) e h =
    ap₂ ◌∷◌
      (get_or-write_run (set buf off x) (off + 1) xs off (omega arith)
        ∙ get_or-set_self buf off x 0 (omega arith))
      (read_run-write_run (set buf off x) (off + 1) xs n (omega arith)
        (omega (arith, length-set buf off x)))

-- A run beside the one written is unchanged.
pub read_run-write_run_ne :
    (buf : List ℕ) (off : ℕ) (src : List ℕ) (at n : ℕ)
    → (at + n ≤ off) ⊎ (off + length src ≤ at)
    → read_run (write_run buf off src) at n ≡ read_run buf at n
read_run-write_run_ne buf off src at zero h = refl
read_run-write_run_ne buf off src at (suc n) h =
    ap₂ ◌∷◌ (get_or-write_run buf off src at (omega arith))
      (read_run-write_run_ne buf off src (at + 1) n (omega arith))

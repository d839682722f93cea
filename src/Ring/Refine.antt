-- ===== src/Ring/Refine.antt =====
-- A ring in order behaves as the log of its last `nbuf` rows.
use native.Mathlib.Nat.{mod-add-mod, mod-lt, mod-eq_of_lt}
use native.Mathlib.Numerals.{add-one}
use xstats.Base.{
  ℕ, suc, ◌+◌, ◌-◌, ◌*◌, ◌%◌, ◌≤◌, ◌<◌, ◌≡◌, refl, sym, ap, ap₂, ◌∙◌, inl, inr, List, [], ◌∷◌, ◌++◌,
  arith, length, tail, ltb, lt→ltb, le→not-ltb, Bool-cases, if◌then◌else◌,
}
use xstats.Base.Rows.{write_run, length-write_run}
use xstats.Kernel.{ok}
use xstats.Ring.{Ring, row_at, memcpy, reset, advance, push, drop_oldest, last_index}
use xstats.Ring.Window.{
  mod_once, mul_mono, window, length-window, window-snoc, window-shift, row_at-write_run,
  window-write_run,
}

-- The log: a new row at the end, and the oldest given up when there are `nbuf`.
abbrev pub append {ℓ} : {A : Type ℓ} → ℕ → List A → A → List A
append nbuf q x = (if ltb (length q) nbuf then q else tail q) ++ (x ∷ [])

-- The indices lie in the array, and the rows held end where the next is written.
pub record IsValid (ncnt nbuf : ℕ) (r : Ring) : Type 0 where
  pub storage : length r.buffer ≡ ncnt * nbuf
  pub base_in : r.buffer_base < nbuf
  pub size_in : r.buffer_size ≤ nbuf
  pub next_at : r.buffer_next ≡ (r.buffer_base + r.buffer_size) % nbuf

-- The rows held, the oldest first.
abbrev pub contents : ℕ → ℕ → Ring → List (List ℕ)
contents ncnt nbuf r = window ncnt nbuf r.buffer r.buffer_base 0 r.buffer_size

pub length-contents : (ncnt nbuf : ℕ) (r : Ring) → length (contents ncnt nbuf r) ≡ r.buffer_size
length-contents ncnt nbuf r = length-window ncnt nbuf r.buffer r.buffer_base 0 r.buffer_size

row_fits : (i n w : ℕ) → i < n → i * w + w ≤ w * n
row_fits i n w h = omega (arith, mul_mono (i + 1) n w (omega arith))

-- Two windows whose last rows agree.
module _ (ncnt nbuf : ℕ) (buffer : List ℕ) (base next : ℕ) (row : List ℕ) (fits : length row ≡ ncnt)
    (storage : length buffer ≡ ncnt * nbuf) (base_in : base < nbuf) (next_in : next < nbuf) where
  abbrev written : List ℕ
  written = write_run buffer (next * ncnt) row

  -- A window of the written array that ends in the new row.
  window-written :
      (k n : ℕ)
      → next ≡ (base + (k + n)) % nbuf
      → k + n ≤ nbuf
      → n < nbuf
      → window ncnt nbuf written base k (suc n) ≡ window ncnt nbuf buffer base k n ++ (row ∷ [])
  window-written k n at le lt =
      window-snoc ncnt nbuf written base k n
      ∙ ap₂ (λ xs x. xs ++ (x ∷ []))
          (window-write_run ncnt nbuf buffer base k n (k + n) next row fits base_in at (omega arith)
            le (omega arith))
          (rw (← at) (row_at-write_run ncnt nbuf buffer next row fits next_in storage))

module _ (ncnt nbuf : ℕ) (r : Ring) (v : IsValid ncnt nbuf r) where
  next_in : r.buffer_next < nbuf
  next_in = rw v.next_at (mod-lt (r.buffer_base + r.buffer_size) (omega (arith, v.base_in)))

  module _ (row : List ℕ) (fits : length row ≡ ncnt) where
    -- The ring after a row that fits.
    abbrev pushed : Ring
    pushed = advance ncnt nbuf (record r { buffer = write_run r.buffer (r.buffer_next * ncnt) row })

    push-ok : push ncnt nbuf r row ≡ ok pushed
    unfolding push memcpy
    push-ok = ground (arith, row_fits r.buffer_next nbuf ncnt next_in)

    pushed-IsValid : IsValid ncnt nbuf pushed
    unfolding advance
    pushed-IsValid = ground (
      arith,
      length-write_run r.buffer (r.buffer_next * ncnt) row,
      mod-add-mod (r.buffer_base + r.buffer_size) nbuf 1,
      mod-add-mod (r.buffer_base + 1) nbuf r.buffer_size,
      mod-lt (r.buffer_base + 1) {m = nbuf},
    )

    grown : r.buffer_size < nbuf → contents ncnt nbuf pushed ≡ contents ncnt nbuf r ++ (row ∷ [])
    unfolding advance
    grown h =
        rw (lt→ltb r.buffer_size nbuf h, add-one)
          (window-written ncnt nbuf r.buffer r.buffer_base r.buffer_next row fits v.storage
            v.base_in next_in 0 r.buffer_size
            (v.next_at ∙ ap (λ j. (r.buffer_base + j) % nbuf) (omega arith)) (omega arith) h)

    full :
        (m : ℕ)
        → r.buffer_size ≡ suc m
        → nbuf ≡ suc m
        → contents ncnt nbuf pushed ≡ tail (contents ncnt nbuf r) ++ (row ∷ [])
    unfolding advance
    full m es en = rw (le→not-ltb r.buffer_size nbuf (omega arith)) (
        window-shift ncnt nbuf new r.buffer_base 0 r.buffer_size
        ∙ ap (window ncnt nbuf new r.buffer_base 1) es
        ∙ window-written ncnt nbuf r.buffer r.buffer_base r.buffer_next row fits v.storage v.base_in
            next_in 1 m (v.next_at ∙ ap (λ j. (r.buffer_base + j) % nbuf) (omega arith))
            (omega arith) (omega arith)
        ∙ ap (λ n. tail (window ncnt nbuf r.buffer r.buffer_base 0 n) ++ (row ∷ [])) (sym es))
      where
        new : List ℕ
        new = write_run r.buffer (r.buffer_next * ncnt) row

    contents-pushed : contents ncnt nbuf pushed ≡ append nbuf (contents ncnt nbuf r) row
    contents-pushed = elim (Bool-cases (ltb r.buffer_size nbuf)) [
      | inl room ↦ grown (ground arith) ∙ rw (length-contents ncnt nbuf r, room) refl
      | inr none_left ↦
          full (nbuf - 1) (ground (arith, v.size_in, v.base_in)) (ground (arith, v.base_in))
          ∙ rw (length-contents ncnt nbuf r, none_left) refl
    ]

-- On a ring in order, a row of its width is stored: the copy stays in the array, the ring stays in
-- order, and it then holds what the log of the last `nbuf` rows holds, the oldest row given up if
-- it was full.
pub push_refines :
    (ncnt nbuf : ℕ) (r : Ring) (row : List ℕ)
    → IsValid ncnt nbuf r
    → length row ≡ ncnt
    → (r' : Ring) × (push ncnt nbuf r row ≡ ok r')
      × IsValid ncnt nbuf r'
      × (contents ncnt nbuf r' ≡ append nbuf (contents ncnt nbuf r) row)
push_refines ncnt nbuf r row v fits = (
  pushed ncnt nbuf r v row fits,
  push-ok ncnt nbuf r v row fits,
  pushed-IsValid ncnt nbuf r v row fits,
  contents-pushed ncnt nbuf r v row fits,
)

-- A reset leaves the ring in order and empty, whatever it held.
pub reset_refines :
    (ncnt nbuf : ℕ) (r : Ring)
    → IsValid ncnt nbuf r
    → IsValid ncnt nbuf (reset r) × (contents ncnt nbuf (reset r) ≡ [])
unfolding reset
reset_refines ncnt nbuf r v = (
  record {
    storage = v.storage;
    base_in = next_in ncnt nbuf r v;
    size_in = omega arith;
    next_at = sym (
        ap (λ j. j % nbuf) (omega arith)
        ∙ mod-eq_of_lt {n = r.buffer_next} {m = nbuf} (next_in ncnt nbuf r v));
  },
  refl,
)

-- A ring in order that is not empty holds the row at its base, and then what it holds after its
-- oldest row is taken off; that leaves it in order.
pub drop_oldest_refines :
    (ncnt nbuf : ℕ) (r : Ring)
    → IsValid ncnt nbuf r
    → 0 < r.buffer_size
    → IsValid ncnt nbuf (drop_oldest ncnt nbuf r)
      × (contents ncnt nbuf r
          ≡ row_at ncnt r.buffer r.buffer_base ∷ contents ncnt nbuf (drop_oldest ncnt nbuf r))
unfolding drop_oldest
drop_oldest_refines ncnt nbuf r v h = (
  ground (
    arith,
    mod-lt (r.buffer_base + 1) {m = nbuf},
    mod-add-mod (r.buffer_base + 1) nbuf (r.buffer_size - 1),
  ),
  ap (window ncnt nbuf r.buffer r.buffer_base 0) some_left
      ∙ ap₂ ◌∷◌ (ap (row_at ncnt r.buffer) here)
          (sym (window-shift ncnt nbuf r.buffer r.buffer_base 0 (r.buffer_size - 1))),
)
  where
    some_left : r.buffer_size ≡ suc (r.buffer_size - 1)
    some_left = omega arith

    here : (r.buffer_base + 0) % nbuf ≡ r.buffer_base
    here = ap (λ j. j % nbuf) (omega arith) ∙ mod-eq_of_lt {n = r.buffer_base} {m = nbuf} v.base_in

last_index-eq :
    (base next size n : ℕ)
    → base < n
    → size < n
    → next ≡ (base + suc size) % n
    → (n + next - 1) % n ≡ (base + size) % n
last_index-eq base next size n h k e = ground (
  arith,
  mod_once (base + suc size) n (omega arith),
  mod_once (base + size) n (omega arith),
  mod_once (n + next - 1) n (omega (arith, mod-lt (base + suc size) {m = n})),
)

-- Where a ring in order is not empty, the row before `buffer_next` is the newest that it holds.
pub last_index_refines :
    (ncnt nbuf : ℕ) (r : Ring)
    → IsValid ncnt nbuf r
    → 0 < r.buffer_size
    → (older : List (List ℕ)) × (contents ncnt nbuf r
        ≡ older ++ (row_at ncnt r.buffer (last_index ncnt nbuf r) ∷ []))
unfolding last_index
last_index_refines ncnt nbuf r v h =
    let n : ℕ = r.buffer_size - 1 in
    let all : r.buffer_size ≡ suc n = omega arith in
    (
      window ncnt nbuf r.buffer r.buffer_base 0 n,
      ap (window ncnt nbuf r.buffer r.buffer_base 0) all
          ∙ window-snoc ncnt nbuf r.buffer r.buffer_base 0 n
          ∙ ap (λ i. window ncnt nbuf r.buffer r.buffer_base 0 n ++ (row_at ncnt r.buffer i ∷ []))
              (ap (λ j. (r.buffer_base + j) % nbuf) (omega arith)
                ∙ sym (
                    last_index-eq r.buffer_base r.buffer_next n nbuf v.base_in
                      (omega (arith, v.size_in))
                      (v.next_at ∙ ap (λ j. (r.buffer_base + j) % nbuf) all))),
    )

-- ===== src/Page/Drain.antt =====
-- What a read of `stat` prints and keeps, for any printer whose lines are short.
use native.Mathlib.Decide.{dec_le}
use xstats.Base.{
  ℕ, zero, suc, ◌+◌, ◌-◌, ◌≤◌, ◌<◌, ◌≡◌, refl, ap, ◌∙◌, ◌⊎◌, inl, inr, List, [], ◌∷◌, ◌++◌, map,
  arith, length, length-append, take, drop, concat, lt→ltb, le→not-ltb,
}
use xstats.Base.Text.{Text}
use xstats.Kernel.{Result, ok, ◌>>=◌}
use xstats.Ring.{Ring, row_at, drop_oldest}
use xstats.Ring.Window.{window}
use xstats.Ring.Refine.{IsValid, contents, drop_oldest_refines}
use xstats.Page.{drain}

-- A printer that prints a row's line wherever there is room, and needs half a page at most.
pub record Prints (print : ℕ → List ℕ → Result Text) (line : List ℕ → Text) : Type 0 where
  pub whole :
      (limit : ℕ) (row : List ℕ) → length (line row) < limit → print limit row ≡ ok (line row)
  pub short : (row : List ℕ) → length (line row) < 2048

-- Of an empty ring nothing is printed.
pub drain_empty :
    (ncnt nbuf : ℕ) (print : ℕ → List ℕ → Result Text) (limit : ℕ) (ring : Ring)
    → ring.buffer_size ≡ 0
    → drain ncnt nbuf print ring.buffer_size limit ring ≡ ok ([], ring)
unfolding drain
drain_empty ncnt nbuf print limit ring e = ap (λ n. drain ncnt nbuf print n limit ring) e

module _ (ncnt nbuf : ℕ) (print : ℕ → List ℕ → Result Text) (line : List ℕ → Text)
    (p : Prints print line) where
  -- `k` rows were printed whole and taken off; rows are left only where half a page is full.
  pub record Drained (q : List (List ℕ)) (limit : ℕ) (text : Text) (ring : Ring) : Type 0 where
    pub k : ℕ
    pub printed : text ≡ concat (map line (take k q))
    pub kept : contents ncnt nbuf ring ≡ drop k q
    pub valid : IsValid ncnt nbuf ring
    pub greedy : (contents ncnt nbuf ring ≡ []) ⊎ (limit ≤ 2048 + length text)
    pub fits : length text < limit
    pub advances : 2048 < limit → 0 < length q → 0 < k

  drop_size :
      (ring : Ring) (n : ℕ)
      → ring.buffer_size ≡ suc n
      → (drop_oldest ncnt nbuf ring).buffer_size ≡ n
  unfolding drop_oldest
  drop_size ring n e = omega arith

  Drained-stop :
      (limit : ℕ) (ring : Ring)
      → IsValid ncnt nbuf ring
      → 0 < limit
      → (contents ncnt nbuf ring ≡ []) ⊎ (limit ≤ 2048)
      → Drained (contents ncnt nbuf ring) limit [] ring
  Drained-stop limit ring valid room h = record {
    k = 0;
    printed = refl;
    kept = refl;
    valid = valid;
    greedy = elim h [ inl none_left ↦ inl none_left | inr short ↦ inr (omega arith) ];
    fits = room;
    advances = elim h [
      | inl none_left ↦ λ _ some_left. absurd (omega (arith, ap length none_left))
      | inr short ↦ λ large _. absurd (omega arith)
    ];
  }

  Drained-line :
      (row : List ℕ) (q q' : List (List ℕ)) (limit : ℕ) (more : Text) (ring : Ring)
      → q ≡ row ∷ q'
      → length (line row) < limit
      → Drained q' (limit - length (line row)) more ring
      → Drained q limit (line row ++ more) ring
  Drained-line row q q' limit more ring e h d = record {
    k = suc d.k;
    printed = rw e (ap (λ t. line row ++ t) d.printed);
    kept = rw e d.kept;
    valid = d.valid;
    greedy = elim d.greedy [
      | inl none_left ↦ inl none_left
      | inr short ↦ inr (omega (arith, length-append (line row) more))
    ];
    fits = omega (arith, length-append (line row) more, d.fits);
    advances = λ _ _. omega arith;
  }

  drain_stop :
      (fuel limit : ℕ) (ring : Ring)
      → limit ≤ 2048
      → drain ncnt nbuf print (suc fuel) limit ring ≡ ok ([], ring)
  unfolding drain
  drain_stop fuel limit ring h = rw (le→not-ltb 2048 limit h) refl

  drain-cons :
      (fuel limit : ℕ) (ring : Ring)
      → 2048 < limit
      → 0 < ring.buffer_size
      → let text = line (row_at ncnt ring.buffer ring.buffer_base) in
        drain ncnt nbuf print (suc fuel) limit ring ≡ (
          drain ncnt nbuf print fuel (limit - length text) (drop_oldest ncnt nbuf ring)
          >>= λ (more, ring'). ok (text ++ more, ring'))
  unfolding drain
  drain-cons fuel limit ring h some_left =
      let row = row_at ncnt ring.buffer ring.buffer_base in
      rw
        (
          lt→ltb 2048 limit h,
          lt→ltb 0 ring.buffer_size some_left,
          p.whole limit row (omega (arith, p.short row)),
        )
        refl

  pub drain_lem :
      (fuel limit : ℕ) (ring : Ring)
      → IsValid ncnt nbuf ring
      → ring.buffer_size ≡ fuel
      → 0 < limit
      → (text : Text) × (ring' : Ring) × (drain ncnt nbuf print fuel limit ring ≡ ok (text, ring'))
        × Drained (contents ncnt nbuf ring) limit text ring'
  drain_lem zero limit ring valid e room = (
    [],
    ring,
    unfold drain in refl,
    Drained-stop limit ring valid room
        (inl (ap (window ncnt nbuf ring.buffer ring.buffer_base 0) e)),
  )
  drain_lem (suc fuel) limit ring valid e room =
      let row = row_at ncnt ring.buffer ring.buffer_base in
      let (valid', q) = drop_oldest_refines ncnt nbuf ring valid (omega arith) in
      let short = p.short row in
      elim (dec_le limit 2048) [
        | yes small ↦ (
          [],
          ring,
          drain_stop fuel limit ring small,
          Drained-stop limit ring valid room (inr small),
        )
        | no large ↦
            let (more, ring', run, rest) =
              drain_lem fuel (limit - length (line row)) (drop_oldest ncnt nbuf ring) valid'
                (drop_size ring fuel e) (omega arith) in
            (
              line row ++ more,
              ring',
              drain-cons fuel limit ring (omega arith) (omega arith) ∙ rw run refl,
              Drained-line row _ _ limit more ring' q (omega arith) rest,
            )
      ]

-- ===== src/Page/Reader.antt =====
-- A reader that reads `stat` again and again.
use native.Mathlib.Decide.{dec_lt}
use xstats.Base.{
  ℕ, zero, suc, ◌-◌, ◌≤◌, ◌<◌, ◌≡◌, refl, sym, ap, ap₂, ◌∙◌, List, [], ◌∷◌, ◌++◌, map, arith,
  length, take, drop, concat, All, append_assoc,
}
use xstats.Base.Text.{Text}
use xstats.Kernel.{Result, ok, ◌>>=◌}
use xstats.Ring.{Ring}
use xstats.Ring.Window.{window}
use xstats.Ring.Refine.{IsValid, contents, length-contents}
use xstats.Page.{page_size, drain}
use xstats.Page.Drain.{Prints, drain_lem}

length-drop {ℓ} : {A : Type ℓ} (n : ℕ) (xs : List A) → length (drop n xs) ≡ length xs - n
length-drop zero xs = omega arith
length-drop (suc n) [] = omega arith
length-drop (suc n) (x ∷ xs) = omega (arith, length-drop n xs)

concat-take-drop {ℓ} :
    {A : Type ℓ} (f : A → Text) (n : ℕ) (xs : List A)
    → concat (map f (take n xs)) ++ concat (map f (drop n xs)) ≡ concat (map f xs)
concat-take-drop f zero xs = refl
concat-take-drop f (suc n) [] = refl
concat-take-drop f (suc n) (x ∷ xs) =
    append_assoc (f x) (concat (map f (take n xs))) (concat (map f (drop n xs)))
    ∙ ap (λ t. f x ++ t) (concat-take-drop f n xs)

module _ (ncnt nbuf : ℕ) (print : ℕ → List ℕ → Result Text) where
  -- The texts of `n` reads, each of a fresh page.
  unfoldable pub read_times : ℕ → Ring → Result (List Text × Ring)
  read_times zero ring = ok ([], ring)
  read_times (suc n) ring = do
    (text, ring') ← drain ncnt nbuf print ring.buffer_size page_size ring
    (texts, ring'') ← read_times n ring'
    ok (text ∷ texts, ring'')

  module _ (line : List ℕ → Text) (p : Prints print line) where
    -- With as many reads as rows are held, every row is printed, whole, once and in order, and the
    -- ring is empty.
    pub read_times_lem :
        (n : ℕ) (ring : Ring)
        → IsValid ncnt nbuf ring
        → ring.buffer_size ≤ n
        → (texts : List Text) × (ring' : Ring) × (read_times n ring ≡ ok (texts, ring'))
          × IsValid ncnt nbuf ring'
          × (contents ncnt nbuf ring' ≡ [])
          × (concat texts ≡ concat (map line (contents ncnt nbuf ring)))
          × All (λ text. length text < page_size) texts
    unfolding read_times
    read_times_lem zero ring valid h =
        let none_held : ring.buffer_size ≡ 0 = omega arith in
        let empty : contents ncnt nbuf ring ≡ [] =
          ap (window ncnt nbuf ring.buffer ring.buffer_base 0) none_held in
        ([], ring, refl, valid, empty, ap (λ q. concat (map line q)) (sym empty), tt)
    read_times_lem (suc n) ring valid h =
        let (text, ring', run, d) =
          drain_lem ncnt nbuf print line p ring.buffer_size page_size ring valid refl
            (omega arith) in
        let sizes = length-contents ncnt nbuf ring in
        let sizes' = length-contents ncnt nbuf ring' in
        let left = ap length d.kept ∙ length-drop d.k (contents ncnt nbuf ring) in
        let fewer : ring'.buffer_size ≤ n = elim (dec_lt 0 ring.buffer_size) [
          | yes some_left ↦ let k = d.advances (omega arith) (omega arith) in omega arith
          | no none_left ↦ omega arith
        ] in
        let (texts, ring'', runs, valid', empty, all, pages) =
          read_times_lem n ring' d.valid fewer in
        (
          text ∷ texts,
          ring'',
          rw (run, runs) refl,
          valid',
          empty,
          ap₂ ◌++◌ d.printed (all ∙ ap (λ q. concat (map line q)) d.kept)
              ∙ concat-take-drop line d.k (contents ncnt nbuf ring),
          (d.fits, pages),
        )

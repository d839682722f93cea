-- ===== src/Page/History.antt =====
-- A ring that is filled by a thread, read by readers and emptied by writers, in any order. Each of
-- them holds the buffer's lock, so that a history is a sequence of whole actions.
use mathlib.Core.List.{Sublist, nil-sublist}
use mathlib.Core.List.Sublist
use xstats.Base.{
  ℕ, zero, suc, ◌≡◌, refl, sym, ap, ◌∙◌, List, [], ◌∷◌, ◌++◌, map, append_assoc, append-nil, arith,
  length, take, drop, tail, concat, ltb, Bool-cases, inl, inr, All,
}
use xstats.Base.Text.{Text}
use xstats.Kernel.{Result, ok, ◌>>=◌}
use xstats.Ring.{Ring}
use xstats.Ring.Refine.{IsValid, contents, append}
use xstats.Page.{page_size, drain}
use xstats.Page.Drain.{Prints, drain_lem}

-- A row that the thread stores, a read of `stat`, or a write that empties the ring.
pub data Action : Type 0 where
  store : (row : List ℕ) → Action
  read empty : Action

-- The rows that the thread brings.
abbrev pub produced : List Action → List (List ℕ)
produced [] = []
produced (store row ∷ acts) = row ∷ produced acts
produced (read ∷ acts) = produced acts
produced (empty ∷ acts) = produced acts

abbrev pub Rows : ℕ → List Action → Type 0
Rows ncnt acts = All (λ row. length row ≡ ncnt) (produced acts)

module _ (ncnt nbuf : ℕ) (put : Ring → List ℕ → Result Ring) (clear : Ring → Ring)
    (print : ℕ → List ℕ → Result Text) where
  pub act : Action → Ring → Result (Text × Ring)
  act (store row) ring = put ring row >>= λ ring'. ok ([], ring')
  act read ring = drain ncnt nbuf print ring.buffer_size page_size ring
  act empty ring = ok ([], clear ring)

  -- The text that the readers get, all together.
  pub run : List Action → Ring → Result (Text × Ring)
  run [] ring = ok ([], ring)
  run (a ∷ acts) ring = do
    (text, mid) ← act a ring
    (more, ring') ← run acts mid
    ok (text ++ more, ring')

  -- Storing keeps the order of the rows, and may lose some; emptying loses all.
  pub record KeepsOrder : Type 0 where
    pub stored :
        (ring : Ring) (row : List ℕ)
        → IsValid ncnt nbuf ring
        → length row ≡ ncnt
        → (ring' : Ring) × (put ring row ≡ ok ring')
          × IsValid ncnt nbuf ring'
          × Sublist (contents ncnt nbuf ring') (contents ncnt nbuf ring ++ (row ∷ []))
    pub cleared :
        (ring : Ring)
        → IsValid ncnt nbuf ring
        → IsValid ncnt nbuf (clear ring) × (contents ncnt nbuf (clear ring) ≡ [])

-- The oldest row may be given up.
pub append-Sublist {ℓ} :
    {A : Type ℓ} (nbuf : ℕ) (q : List A) (x : A) → Sublist (append nbuf q x) (q ++ (x ∷ []))
append-Sublist nbuf q x = elim (Bool-cases (ltb (length q) nbuf)) [
  | inl room ↦ rw room (Sublist.refl (q ++ (x ∷ [])))
  | inr full ↦ rw full (Sublist.append (tail_sub q) (Sublist.refl (x ∷ [])))
]
  where
    tail_sub : {A : Type ℓ} (l : List A) → Sublist (tail l) l
    tail_sub [] = Sublist.refl []
    tail_sub (y ∷ ys) = Sublist.cons y (Sublist.refl ys)

pub take-drop {ℓ} : {A : Type ℓ} (n : ℕ) (xs : List A) → take n xs ++ drop n xs ≡ xs
take-drop zero xs = refl
take-drop (suc n) [] = refl
take-drop (suc n) (x ∷ xs) = ap (λ l. x ∷ l) (take-drop n xs)

pub concat-map_append {ℓ} :
    {A : Type ℓ} (f : A → Text) (xs ys : List A)
    → concat (map f (xs ++ ys)) ≡ concat (map f xs) ++ concat (map f ys)
concat-map_append f [] ys = refl
concat-map_append f (x ∷ xs) ys =
    ap (λ t. f x ++ t) (concat-map_append f xs ys)
    ∙ sym (append_assoc (f x) (concat (map f xs)) (concat (map f ys)))

-- What was read before and what is read later keep their order together.
pub Sublist-chain {ℓ} :
    {A : Type ℓ} (d c₁ c p d' c' p' : List A)
    → Sublist (d ++ c₁) (c ++ p)
    → Sublist (d' ++ c') (c₁ ++ p')
    → Sublist ((d ++ d') ++ c') (c ++ (p ++ p'))
Sublist-chain d c₁ c p d' c' p' h k =
    rw (append_assoc d d' c', sym (append_assoc c p p'))
      (Sublist.trans (Sublist.append (Sublist.refl d) k)
        (rw (sym (append_assoc d c₁ p')) (Sublist.append h (Sublist.refl p'))))

module _ (ncnt nbuf : ℕ) (put : Ring → List ℕ → Result Ring) (clear : Ring → Ring)
    (print : ℕ → List ℕ → Result Text) (line : List ℕ → Text) (p : Prints print line)
    (keeps : KeepsOrder ncnt nbuf put clear print) where
  -- A history that ends well: the rows delivered to readers, and then those held, are rows that were
  -- held or brought, each at most once and in order.
  abbrev pub Delivers : List (List ℕ) → List (List ℕ) → Result (Text × Ring) → Type 0
  Delivers held brought r =
      (text : Text) × (ring : Ring) × (delivered : List (List ℕ)) × (r ≡ ok (text, ring))
      × IsValid ncnt nbuf ring
      × (text ≡ concat (map line delivered))
      × Sublist (delivered ++ contents ncnt nbuf ring) (held ++ brought)

  Rows-cons :
      (a : Action) (acts : List Action) → Rows ncnt (a ∷ acts) → Rows ncnt (a ∷ []) × Rows ncnt acts
  Rows-cons (store row) acts h = ((h.0, tt), h.1)
  Rows-cons read acts h = (tt, h)
  Rows-cons empty acts h = (tt, h)

  produced-cons :
      (a : Action) (acts : List Action) → produced (a ∷ acts) ≡ produced (a ∷ []) ++ produced acts
  produced-cons (store row) acts = refl
  produced-cons read acts = refl
  produced-cons empty acts = refl

  act-Delivers :
      (a : Action) (ring : Ring)
      → IsValid ncnt nbuf ring
      → Rows ncnt (a ∷ [])
      → Delivers
          (contents ncnt nbuf ring)
          (produced (a ∷ []))
          (act ncnt nbuf put clear print a ring)
  unfolding act
  act-Delivers (store row) ring v h =
      let (ring', e, v', order) = keeps.stored ring row v h.0 in
      ([], ring', [], rw e refl, v', refl, order)
  act-Delivers read ring v h =
      let (text, ring', e, d) =
        drain_lem ncnt nbuf print line p ring.buffer_size page_size ring v refl (omega arith) in
      (
        text,
        ring',
        take d.k (contents ncnt nbuf ring),
        e,
        d.valid,
        d.printed,
        rw (d.kept, take-drop d.k (contents ncnt nbuf ring), append-nil (contents ncnt nbuf ring))
            (Sublist.refl (contents ncnt nbuf ring)),
      )
  act-Delivers empty ring v h =
      let (v', none_held) = keeps.cleared ring v in
      ([], clear ring, [], refl, v', refl, rw none_held (nil-sublist _))

  pub run-Delivers :
      (acts : List Action) (ring : Ring)
      → IsValid ncnt nbuf ring
      → Rows ncnt acts
      → Delivers (contents ncnt nbuf ring) (produced acts) (run ncnt nbuf put clear print acts ring)
  unfolding run
  run-Delivers [] ring v h =
      ([], ring, [], refl, v, refl, rw (append-nil (contents ncnt nbuf ring)) (Sublist.refl _))
  run-Delivers (a ∷ acts) ring v h =
      let (now, later) = Rows-cons a acts h in
      let (text, mid, d, e, v', said, order) = act-Delivers a ring v now in
      let (more, ring', d', e', v'', said', order') = run-Delivers acts mid v' later in
      (
        text ++ more,
        ring',
        d ++ d',
        rw (e, e') refl,
        v'',
        rw (said, said') (sym (concat-map_append line d d')),
        rw (produced-cons a acts) (
            Sublist-chain d (contents ncnt nbuf mid) (contents ncnt nbuf ring) (produced (a ∷ []))
              d' (contents ncnt nbuf ring') (produced acts) order order'),
      )

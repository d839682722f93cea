-- ===== src/Base/Sublists.antt =====
-- What holds of all elements of a list holds of those of a part of it.
use mathlib.Core.List.{Sublist, Sublistᴰ}
use mathlib.Core.Logic.{∥∥₁_elim}
use mathlib.Core.Path.{subst}
use xstats.Base.{List, [], ◌∷◌, ◌++◌, All, sym}

module _ {ℓ κ} {A : Type ℓ} (P : A → Type κ) where
  pub All-append : (xs ys : List A) → All P xs → All P ys → All P (xs ++ ys)
  All-append [] ys v w = w
  All-append (x ∷ xs) ys v w = (v.0, All-append xs ys v.1 w)

  pub All-split : (xs ys : List A) → All P (xs ++ ys) → All P xs × All P ys
  All-split [] ys v = (tt, v)
  All-split (x ∷ xs) ys v = let (ps, qs) = All-split xs ys v.1 in ((v.0, ps), qs)

  pub All-IsProp : ((x : A) → IsProp (P x)) → (xs : List A) → IsProp (All P xs)
  All-IsProp h [] = hlevel
  All-IsProp h (x ∷ xs) = hlevel (h x, All-IsProp h xs)

  All-Sublistᴰ : {xs ys : List A} → Sublistᴰ xs ys → All P ys → All P xs
  All-Sublistᴰ Sublistᴰ.slnil v = tt
  All-Sublistᴰ (Sublistᴰ.cons s) v = All-Sublistᴰ s v.1
  All-Sublistᴰ (Sublistᴰ.cons-cons e s) v = (subst P (sym e) v.0, All-Sublistᴰ s v.1)

  pub All-Sublist :
      ((x : A) → IsProp (P x)) → (xs ys : List A) → Sublist xs ys → All P ys → All P xs
  All-Sublist h xs ys s v = ∥∥₁_elim s (All-IsProp h xs) (λ d. All-Sublistᴰ d v)

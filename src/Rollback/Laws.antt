-- ===== src/Rollback/Laws.antt =====
-- What becomes of the events of a table when a module is loaded and unloaded.
use xstats.Base.{
  ℕ, All, ◌≡◌, ◌≢◌, refl, ap, ap₂, ◌∙◌, ◌⊎◌, inl, inr, Bool, true, false, List, [], ◌∷◌, ◌++◌,
  arith, Bool-cases, ◌==◌, map,
}
use xstats.Rollback.{cnt_init_failed, class_failed, loaded, init_counters, exit_counters, load}

pub append-nil_right : (xs ys : List ℕ) → xs ++ ys ≡ [] → ys ≡ []
append-nil_right [] ys h = h
append-nil_right (x ∷ xs) ys h = absurd (cc)

-- `events` of a counter, for all of a table.
abbrev pub of_all {ℓ} : {A : Type ℓ} → (A → List ℕ) → List A → List ℕ
of_all events [] = []
of_all events (c ∷ cs) = events c ++ of_all events cs

-- Of some element of a list.
abbrev pub Any {ℓ} : {A : Type ℓ} → (A → Type 0) → List A → Type 0
Any P [] = ⊥
Any P (x ∷ xs) = P x ⊎ Any P xs

pub All-weaken {ℓ κ μ} :
    {A : Type ℓ} {P : A → Type κ} {Q : A → Type μ} (f : (x : A) → P x → Q x) (xs : List A)
    → All P xs
    → All Q xs
All-weaken f [] h = tt
All-weaken f (x ∷ xs) h = (f x h.0, All-weaken f xs h.1)

pub Any-weaken {ℓ} :
    {A : Type ℓ} {P Q : A → Type 0} (f : (x : A) → P x → Q x) (xs : List A) → Any P xs → Any Q xs
Any-weaken f [] h = absurd h
Any-weaken f (x ∷ xs) (inl h) = inl (f x h)
Any-weaken f (x ∷ xs) (inr h) = inr (Any-weaken f xs h)

-- A counter's init takes all the events it is handed, and its exit releases all it holds.
pub record Keeps {ℓ} {A : Type ℓ} (init : A → Bool × A) (exit : A → A × List ℕ)
    (held handed : A → List ℕ) : Type ℓ where
  pub takes : (c : A) → held (init c).1 ≡ handed c
  pub releases : (c : A) → (exit c).1 ≡ held c
  pub frees : (c : A) → held (exit c).0 ≡ []

module _ {ℓ} {A : Type ℓ} {init : A → Bool × A} {exit : A → A × List ℕ} {held handed : A → List ℕ}
    (k : Keeps init exit held handed) where
  pub exit_counters_lem :
      (cs : List A)
      → ((exit_counters exit cs).1 ≡ of_all held cs) × (of_all held (exit_counters exit cs).0 ≡ [])
  unfolding exit_counters
  exit_counters_lem [] = (refl, refl)
  exit_counters_lem (c ∷ cs) =
      let (others, all_free) = exit_counters_lem cs in
      (ap₂ ◌++◌ (k.releases c) others, ap₂ ◌++◌ (k.frees c) all_free)

  -- What the loop of micstat_init leaves held.
  init_counters_lem :
      (cs : List A)
      → of_all held cs ≡ []
      → (((init_counters init exit cs).0.0 ≡ true)
          × (of_all held (init_counters init exit cs).0.1 ≡ of_all handed cs))
        ⊎ (((init_counters init exit cs).0.0 ≡ false)
            × (of_all held (init_counters init exit cs).0.1 ≡ []))
  unfolding init_counters
  init_counters_lem [] h = inl (refl, refl)
  init_counters_lem (c ∷ cs) h =
      let rest = append-nil_right (held c) (of_all held cs) h in
      let free = k.frees (init c).1 in
      elim (Bool-cases (init c).0) [
        | inr refused ↦ rw refused (inr (refl, ap₂ ◌++◌ free rest))
        | inl made ↦ elim (init_counters_lem cs rest) [
          | inl (all_made, got) ↦ rw (made, all_made) (inl (refl, ap₂ ◌++◌ (k.takes c) got))
          | inr (later, none_left) ↦ rw (made, later) (inr (refl, ap₂ ◌++◌ free none_left))
        ]
      ]

  pub load_lem :
      (registered : ℕ) (cs : List A)
      → of_all held cs ≡ []
      → let (end, (cs', released)) = load init exit registered cs in
        ((end ≡ cnt_init_failed) × (of_all held cs' ≡ []))
        ⊎ ((end ≡ class_failed)
            × (registered ≢ 0)
            × (released ≡ [])
            × (of_all held cs' ≡ of_all handed cs))
        ⊎ ((end ≡ loaded)
            × (registered ≡ 0)
            × ((exit_counters exit cs').1 ≡ of_all handed cs)
            × (of_all held (exit_counters exit cs').0 ≡ []))
  unfolding load
  load_lem registered cs h = elim (init_counters_lem cs h) [
    | inr (refused, none_left) ↦ rw refused (inl (refl, none_left))
    | inl (made, got) ↦ elim (Bool-cases (registered == 0)) [
      | inr failed ↦ rw (made, failed) (inr (inl (refl, ground arith, refl, got)))
      | inl zero_code ↦
          let (all, free) = exit_counters_lem (init_counters init exit cs).0.1 in
          rw (made, zero_code) (inr (inr (refl, ground arith, all ∙ got, free)))
    ]
  ]

module _ {ℓ} {A : Type ℓ} (init : A → Bool × A) (exit : A → A × List ℕ) where
  init_counters-map :
      (cs : List A)
      → (init_counters init exit cs).0.0 ≡ true
      → (init_counters init exit cs).0.1 ≡ map (λ c. (init c).1) cs
  unfolding init_counters
  init_counters-map [] h = refl
  init_counters-map (c ∷ cs) h = elim (Bool-cases (init c).0) [
    | inr refused ↦ absurd (cc)
    | inl made ↦ elim (Bool-cases (init_counters init exit cs).0.0) [
      | inr later ↦ absurd (cc)
      | inl all_made ↦
          rw (made, all_made) (ap (λ rest. (init c).1 ∷ rest) (init_counters-map cs all_made))
    ]
  ]

  -- A table that is loaded holds every counter as its init left it.
  pub load-map :
      (registered : ℕ) (cs : List A)
      → (load init exit registered cs).0 ≡ loaded
      → (load init exit registered cs).1.0 ≡ map (λ c. (init c).1) cs
  unfolding load
  load-map registered cs h = elim (Bool-cases (init_counters init exit cs).0.0) [
    | inr refused ↦ absurd (cc)
    | inl made ↦ elim (Bool-cases (registered == 0)) [
      | inr failed ↦ rw (made, failed) (init_counters-map cs made)
      | inl zero_code ↦ rw (made, zero_code) (init_counters-map cs made)
    ]
  ]

  init_counters-refused :
      (cs : List A) → (init_counters init exit cs).0.0 ≡ false → Any (λ c. (init c).0 ≡ false) cs
  unfolding init_counters
  init_counters-refused [] h = absurd (cc)
  init_counters-refused (c ∷ cs) h = elim (Bool-cases (init c).0) [
    | inr refused ↦ inl refused
    | inl made ↦ elim (Bool-cases (init_counters init exit cs).0.0) [
      | inr later ↦ inr (init_counters-refused cs later)
      | inl all_made ↦ absurd (cc)
    ]
  ]

  -- Loading gives up only at a counter whose init fails.
  pub load-refused :
      (registered : ℕ) (cs : List A)
      → (load init exit registered cs).0 ≡ cnt_init_failed
      → Any (λ c. (init c).0 ≡ false) cs
  unfolding load
  load-refused registered cs h = elim (Bool-cases (init_counters init exit cs).0.0) [
    | inr refused ↦ init_counters-refused cs refused
    | inl made ↦ elim (Bool-cases (registered == 0)) [
      | inr failed ↦ absurd (cc)
      | inl zero_code ↦ absurd (cc)
    ]
  ]

  init_counters-made :
      (cs : List A) → (init_counters init exit cs).0.0 ≡ true → All (λ c. (init c).0 ≡ true) cs
  unfolding init_counters
  init_counters-made [] h = tt
  init_counters-made (c ∷ cs) h = elim (Bool-cases (init c).0) [
    | inr refused ↦ absurd (cc)
    | inl made ↦ elim (Bool-cases (init_counters init exit cs).0.0) [
      | inr later ↦ absurd (cc)
      | inl all_made ↦ (made, init_counters-made cs all_made)
    ]
  ]

  -- Loading gets past the loop only where every init succeeds.
  pub load-made :
      (registered : ℕ) (cs : List A)
      → ((load init exit registered cs).0 ≡ class_failed)
        ⊎ ((load init exit registered cs).0 ≡ loaded)
      → All (λ c. (init c).0 ≡ true) cs
  unfolding load
  load-made registered cs h = elim (Bool-cases (init_counters init exit cs).0.0) [
    | inl made ↦ init_counters-made cs made
    | inr refused ↦ elim h [ inl e ↦ absurd (cc) | inr e ↦ absurd (cc) ]
  ]

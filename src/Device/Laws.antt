-- ===== src/Device/Laws.antt =====
-- What a module keeps over any events, from what each of its functions keeps.
use mathlib.Core.List.{Sublist, map-append}
use mathlib.Core.List.Sublist
use xstats.Base.{
  append_shift, ℕ, ◌<◌, ◌≡◌, refl, sym, ap, ap₂, ◌∙◌, List, [], ◌∷◌, ◌++◌, map, Option, none, some,
  get_elem?, append-nil, append_assoc, concat, length, All, get_or, ◌==◌, if◌then◌else◌,
}
use xstats.Base.Text.{Text}
use xstats.Kernel.{Result, ok}
use xstats.Page.{page_size}
use xstats.Page.History.{concat-map_append, Sublist-chain}
use xstats.Device.{
  Request, ClassAttribute, Event, round, show, store, Outcome, nothing, and_then, text_of,
  call_show, call_store, show_at, store_at, step, run,
}

-- The first word of a row.
abbrev pub time_of : List ℕ → ℕ
time_of row = get_or row 0 0

-- A reply fits a page, and its final zero too.
abbrev pub FitsPage : ℕ × Text → Type 0
FitsPage reply = length reply.1 < page_size

-- What a module's state shows: the rows held, the threads that run, the events held.
pub record View (S : Type 0) : Type 1 where
  pub InOrder : S → Type 0
  pub rows : S → List (List ℕ)
  pub threads : S → List ℕ
  pub held : S → List ℕ
  -- The place of `stat`, and the line it prints for a row.
  pub stat : ℕ
  pub line : List ℕ → Text
  -- What is asked of a write.
  pub allows : Request → Type 0

text_of-append :
    (place : ℕ) (xs ys : List (ℕ × Text))
    → text_of place (xs ++ ys) ≡ text_of place xs ++ text_of place ys
text_of-append place [] ys = refl
text_of-append place ((i, text) ∷ xs) ys =
    ap (λ t. (if i == place then text else []) ++ t) (text_of-append place xs ys)
    ∙ sym (append_assoc (if i == place then text else []) (text_of place xs) (text_of place ys))

All-append {ℓ κ} :
    {A : Type ℓ} (P : A → Type κ) (xs ys : List A) → All P xs → All P ys → All P (xs ++ ys)
All-append P [] ys p q = q
All-append P (x ∷ xs) ys p q = (p.0, All-append P xs ys p.1 q)

module _ {S : Type 0} (view : View S) where
  open view use {InOrder, rows, threads, held, stat, line, allows}

  -- From `s` to `s'`, with the rows brought and those delivered: the rows keep their order, none is
  -- shown twice, every thread started is stopped or runs, and the events held stay.
  pub record Keeps (s : S) (o : Outcome) (s' : S) : Type 0 where
    pub brought : List (List ℕ)
    pub delivered : List (List ℕ)
    pub in_order : InOrder s'
    pub timed : map time_of brought ≡ o.times
    pub printed : text_of stat o.replies ≡ concat (map line delivered)
    pub kept : Sublist (delivered ++ rows s') (rows s ++ brought)
    pub fits : All FitsPage o.replies
    pub counted : threads s ++ o.started ≡ o.stopped ++ threads s'
    pub holds : held s' ≡ held s

  pub Keeps-nothing : (s : S) → InOrder s → Keeps s nothing s
  Keeps-nothing s v = record {
    brought = [];
    delivered = [];
    in_order = v;
    timed = refl;
    printed = refl;
    kept = rw (append-nil (rows s)) (Sublist.refl (rows s));
    fits = tt;
    counted = append-nil (threads s);
    holds = refl;
  }

  pub Keeps-and_then :
      (s mid s' : S) (o o' : Outcome) → Keeps s o mid → Keeps mid o' s' → Keeps s (and_then o o') s'
  Keeps-and_then s mid s' o o' k k' = record {
    brought = k.brought ++ k'.brought;
    delivered = k.delivered ++ k'.delivered;
    in_order = k'.in_order;
    timed = map-append time_of k.brought k'.brought ∙ ap₂ ◌++◌ k.timed k'.timed;
    printed =
        text_of-append stat o.replies o'.replies
        ∙ ap₂ ◌++◌ k.printed k'.printed
        ∙ sym (concat-map_append line k.delivered k'.delivered);
    kept =
        Sublist-chain k.delivered (rows mid) (rows s) k.brought k'.delivered (rows s') k'.brought
          k.kept k'.kept;
    fits = All-append FitsPage o.replies o'.replies k.fits k'.fits;
    counted =
        append_shift (threads s) o.started o'.started o.stopped (threads mid) o'.stopped
          (threads s') k.counted k'.counted;
    holds = k'.holds ∙ k.holds;
  }

  -- A result that is a success and keeps.
  abbrev pub Goes : S → Result (Outcome × S) → Type 0
  Goes s r = (o : Outcome) × (s' : S) × (r ≡ ok (o, s')) × Keeps s o s'

  abbrev pub ShowGoes : ℕ → Option (ClassAttribute S) → Type 0
  ShowGoes place none = Unit {0}
  ShowGoes place (some a) = (s : S) → InOrder s → Goes s (call_show place a.show s)

  abbrev pub StoreGoes : Option (ClassAttribute S) → Type 0
  StoreGoes none = Unit {0}
  StoreGoes (some a) =
      (req : Request) (s : S) → allows req → InOrder s → Goes s (call_store a.store req s)

  -- What has to be proved of a module.
  pub record Serves {R : Type 0} (roll : R → S → Result (List ℕ × S))
      (table : List (ClassAttribute S)) : Type 0 where
    pub rounds :
        (now : R) (s : S)
        → InOrder s
        → (times : List ℕ) × (s' : S) × (roll now s ≡ ok (times, s'))
          × Keeps s (record nothing { times = times }) s'
    pub shows : (place : ℕ) → ShowGoes place (get_elem? table place)
    pub stores : (place : ℕ) → StoreGoes (get_elem? table place)

  show_at-Goes :
      (place : ℕ) (a : Option (ClassAttribute S)) (s : S)
      → ShowGoes place a
      → InOrder s
      → Goes s (show_at place a s)
  show_at-Goes place none s h v = (nothing, s, refl, Keeps-nothing s v)
  show_at-Goes place (some a) s h v = h s v

  store_at-Goes :
      (a : Option (ClassAttribute S)) (req : Request) (s : S)
      → StoreGoes a
      → allows req
      → InOrder s
      → Goes s (store_at a req s)
  store_at-Goes none req s h u v = (nothing, s, refl, Keeps-nothing s v)
  store_at-Goes (some a) req s h u v = h req s u v

  abbrev pub IsAllowed : {R : Type 0} → Event R → Type 0
  IsAllowed (store place req) = allows req
  IsAllowed (round now) = Unit {0}
  IsAllowed (show place) = Unit {0}

  module _ {R : Type 0} {roll : R → S → Result (List ℕ × S)} {table : List (ClassAttribute S)}
      (serves : Serves roll table) where
    step-Goes : (e : Event R) (s : S) → IsAllowed e → InOrder s → Goes s (step roll table e s)
    unfolding step
    step-Goes (round now) s u v =
        let (times, s', e, k) = serves.rounds now s v in
        (record nothing { times = times }, s', rw e refl, k)
    step-Goes (show place) s u v =
        show_at-Goes place (get_elem? table place) s (serves.shows place) v
    step-Goes (store place req) s u v =
        store_at-Goes (get_elem? table place) req s (serves.stores place) u v

    pub run-Goes :
        (es : List (Event R)) (s : S) → All IsAllowed es → InOrder s → Goes s (run roll table es s)
    unfolding run
    run-Goes [] s u v = (nothing, s, refl, Keeps-nothing s v)
    run-Goes (e ∷ es) s u v =
        let (o, mid, first, k) = step-Goes e s u.0 v in
        let (o', s', rest, k') = run-Goes es mid u.1 k.in_order in
        (and_then o o', s', rw (first, rest) refl, Keeps-and_then s mid s' o o' k k')

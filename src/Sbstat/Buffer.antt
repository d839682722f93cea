-- ===== src/Sbstat/Buffer.antt =====
-- The ring of sbstat, which refuses a row when it is full: roll_buffer.
use xstats.Base.{
  ℕ, ◌+◌, ◌*◌, ◌%◌, ◌<◌, ◌≡◌, refl, ap, ◌∙◌, inl, inr, Bool, true, false, List, [], ◌∷◌, ◌++◌,
  length, ltb, ltb→lt, lt→ltb, Bool-cases, if◌then◌else◌,
}
use xstats.Kernel.{Result, ok, failed, fault, ◌>>=◌}
use xstats.Ring
use xstats.Ring.{Ring, memcpy}
use xstats.Ring.Refine.{IsValid, contents, length-contents, push_refines}
use xstats.Ring.Room.{push-room, with_row}
use xstats.Sbstat.Counters.{table, restart_counters_lem}
use xstats.Sbstat.{ncnt, nbuf, Counter, Cell, Trace, Readings, perf_restart, restart_counters}

-- The result is -1 or 0.
pub offer : Ring → List ℕ → Result (Bool × Ring)
offer r row =
    let store : Result (Bool × Ring) = (do
      buffer ← memcpy r.buffer (r.buffer_next * ncnt) row
      ok (
        true,
        record r {
          buffer = buffer;
          buffer_next = (r.buffer_next + 1) % nbuf;
          buffer_size = r.buffer_size + 1;
        },
      )) in
    if ltb r.buffer_size nbuf then store else ok (false, r)

-- The statics that a round changes.
pub record Sampler : Type 0 where
  pub trace : Trace
  pub counters : List Counter
  pub ring : Ring

pub roll_buffer : (ℕ → ℕ → ℕ → ℕ) → Readings → Sampler → Result (Bool × Sampler)
roll_buffer scale now s = do
  let (row, after) = restart_counters scale now s.trace s.counters
  (stored, ring) ← offer s.ring row
  ok (stored, record { trace = after.0; counters = after.1; ring = ring })

abbrev pub samples : Ring → List (List ℕ)
samples r = contents ncnt nbuf r

-- The log of a ring that refuses rows.
abbrev pub append_if_room : List (List ℕ) → List ℕ → List (List ℕ)
append_if_room q row = if ltb (length q) nbuf then q ++ (row ∷ []) else q

bind-stored :
    (copied : Result (List ℕ)) (f : List ℕ → Ring)
    → ◌≡◌ {A = Result (Bool × Ring)}
        (copied >>= λ buffer. ok (true, f buffer))
        ((copied >>= λ buffer. ok (f buffer)) >>= λ r'. ok (true, r'))
bind-stored (ok buffer) f = refl
bind-stored failed f = refl
bind-stored fault f = refl

offer-room :
    (r : Ring) (row : List ℕ)
    → r.buffer_size < nbuf
    → offer r row ≡ (Ring.push ncnt nbuf r row >>= λ r'. ok (true, r'))
unfolding offer
offer-room r row h =
    rw (lt→ltb r.buffer_size nbuf h, push-room ncnt nbuf r row h)
      (bind-stored (memcpy r.buffer (r.buffer_next * ncnt) row) (with_row nbuf r))

-- A ring in order takes a row of its width where there is room, at the end, and refuses it without a
-- change where it holds 128 rows; it stays in order.
pub offer_refines :
    (r : Ring) (row : List ℕ)
    → IsValid ncnt nbuf r
    → length row ≡ ncnt
    → (r' : Ring) × (offer r row ≡ ok (ltb (length (samples r)) nbuf, r'))
      × IsValid ncnt nbuf r'
      × (samples r' ≡ append_if_room (samples r) row)
unfolding offer
offer_refines r row v fits =
    let size = length-contents ncnt nbuf r in
    elim (Bool-cases (ltb r.buffer_size nbuf)) [
      | inl room ↦
          let (r', run, valid, log) = push_refines ncnt nbuf r row v fits in
          (
            r',
            rw (offer-room r row (ltb→lt r.buffer_size nbuf room), run, size, room) refl,
            valid,
            log ∙ rw (size, room) refl,
          )
      | inr full ↦ (r, rw (size, full) refl, v, rw (size, full) refl)
    ]

-- The sampler of a module that is loaded: its table has the shape of `counters`.
pub record IsSampler (s : Sampler) : Type 0 where
  pub a : List Cell
  pub b : List Cell
  pub c : List Cell
  pub d : List Cell
  pub e : List Cell
  pub f : List Cell
  pub g : List Cell
  pub shape : s.counters ≡ table a b c d e f g
  pub in_order : IsValid ncnt nbuf s.ring

-- A round of a sampler whose ring is in order never fails otherwise than by a full ring: then nothing
-- is stored, and else one row of the values of this round is, at the end. In both cases the next
-- round measures its interval from this one, and the counters are those after this round.
pub roll_buffer-IsSampler :
    (scale : ℕ → ℕ → ℕ → ℕ) (now : Readings) (s : Sampler)
    → IsSampler s
    → (s' : Sampler) × (roll_buffer scale now s ≡ ok (ltb (length (samples s.ring)) nbuf, s'))
      × IsSampler s'
      × (samples s'.ring
          ≡ append_if_room (samples s.ring) (restart_counters scale now s.trace s.counters).0)
      × (s'.trace.st_current ≡ now.started)
      × (s'.counters ≡ (restart_counters scale now s.trace s.counters).1.1)
unfolding roll_buffer
roll_buffer-IsSampler scale now s v =
    let out = restart_counters scale now s.trace s.counters in
    let values =
      ap (restart_counters scale now s.trace) v.shape
      ∙ restart_counters_lem scale now s.trace v.a v.b v.c v.d v.e v.f v.g in
    let (ring, run, valid, log) =
      offer_refines s.ring out.0 v.in_order (ap (λ r. length r.0) values) in
    (
      record { trace = out.1.0; counters = out.1.1; ring = ring },
      rw run refl,
      record {
        a = (perf_restart scale now.perf_value 0 v.a).1;
        b = (perf_restart scale now.perf_value 0 v.b).1;
        c = (perf_restart scale now.perf_value 0 v.c).1;
        d = (perf_restart scale now.perf_value 0 v.d).1;
        e = (perf_restart scale now.perf_value 0 v.e).1;
        f = (perf_restart scale now.perf_value 0 v.f).1;
        g = (perf_restart scale now.perf_value 0 v.g).1;
        shape = ap (λ r. r.1.1) values;
        in_order = valid;
      },
      log,
      ap (λ r. r.1.0.st_current) values,
      refl,
    )

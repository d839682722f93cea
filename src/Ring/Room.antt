-- ===== src/Ring/Room.antt =====
-- When a push faults, and what it does where there is room.
use xstats.Base.{ℕ, ◌+◌, ◌*◌, ◌%◌, ◌<◌, ◌≡◌, refl, List, [], arith, length, lt→ltb}
use xstats.Kernel.{Result, ok, fault, ◌>>=◌}
use xstats.Ring.{Ring, memcpy, advance, push}

-- A row that is not empty cannot be copied into an array that was refused.
pub push-refused :
    (ncnt nbuf : ℕ) (r : Ring) (row : List ℕ)
    → r.buffer ≡ []
    → 0 < length row
    → push ncnt nbuf r row ≡ fault
unfolding push memcpy
push-refused ncnt nbuf r row refused h = rw refused (ground arith)

-- A ring with a new array, where there is room: only the end moves.
abbrev pub with_row : ℕ → Ring → List ℕ → Ring
with_row nbuf r buffer = record r {
  buffer = buffer;
  buffer_next = (r.buffer_next + 1) % nbuf;
  buffer_size = r.buffer_size + 1;
}

pub push-room :
    (ncnt nbuf : ℕ) (r : Ring) (row : List ℕ)
    → r.buffer_size < nbuf
    → push ncnt nbuf r row
      ≡ (memcpy r.buffer (r.buffer_next * ncnt) row >>= λ buffer. ok (with_row nbuf r buffer))
unfolding push advance
push-room ncnt nbuf r row h = go (memcpy r.buffer (r.buffer_next * ncnt) row)
  where
    go :
        (copied : Result (List ℕ))
        → elim copied [
          | Result.ok buffer ↦ ok (advance ncnt nbuf (record r { buffer = buffer }))
          | Result.failed ↦ Result.failed
          | Result.fault ↦ fault
        ]
          ≡ (copied >>= λ buffer. ok (with_row nbuf r buffer))
    go (Result.ok buffer) = rw (lt→ltb r.buffer_size nbuf h) refl
    go Result.failed = refl
    go Result.fault = refl

-- ===== src/Ring.antt =====
-- The ring of samples that every module keeps: `nbuf` rows of `ncnt` words in one array, filled at
-- `buffer_next` and emptied at `buffer_base`. (xstat/xstat.c: roll_buffer, store_reset_attr and the
-- loop of show_stat_attr.)
pub mod Window
pub mod Refine
pub mod Room
pub mod Clear
mod Tests
use xstats.Base.{ℕ, ◌+◌, ◌-◌, ◌*◌, ◌%◌, List, ltb, leb, if◌then◌else◌, length}
use xstats.Base.Rows.{read_run, write_run}
use xstats.Kernel.{Result, ok, fault}

pub record Ring : Type 0 where
  pub buffer : List ℕ
  pub buffer_base : ℕ
  pub buffer_next : ℕ
  pub buffer_size : ℕ

-- A copy that does not fit the array is a stray write; so is one into an array that kzalloc refused.
pub memcpy : List ℕ → ℕ → List ℕ → Result (List ℕ)
memcpy buffer off src =
    if leb (off + length src) (length buffer) then ok (write_run buffer off src) else fault

-- A new base and an empty ring: store_reset_attr.
unfoldable pub reset : Ring → Ring
reset r = record r { buffer_size = 0; buffer_base = r.buffer_next }

-- The `ncnt` words from `&buffer[i * ncnt]` on.
abbrev pub row_at : ℕ → List ℕ → ℕ → List ℕ
row_at ncnt buffer i = read_run buffer (i * ncnt) ncnt

module _ (ncnt nbuf : ℕ) where
  -- What happens to the indices under the lock of roll_buffer; the oldest row is given up when full.
  pub advance : Ring → Ring
  advance r =
      let r' = record r { buffer_next = (r.buffer_next + 1) % nbuf } in
      if ltb r.buffer_size nbuf
      then record r' { buffer_size = r.buffer_size + 1 }
      else record r' { buffer_base = (r.buffer_base + 1) % nbuf }

  pub push : Ring → List ℕ → Result Ring
  push r row = elim (memcpy r.buffer (r.buffer_next * ncnt) row) [
    | Result.ok buffer ↦ ok (advance (record r { buffer = buffer }))
    | Result.failed ↦ Result.failed
    | Result.fault ↦ fault
  ]

  -- The end of a round of show_stat_attr's loop, which runs only where the ring is not empty.
  unfoldable pub drop_oldest : Ring → Ring
  drop_oldest r = record r {
    buffer_base = (r.buffer_base + 1) % nbuf;
    buffer_size = r.buffer_size - 1;
  }

  -- The index of the row written last.
  pub last_index : Ring → ℕ
  last_index r = (nbuf + r.buffer_next - 1) % nbuf

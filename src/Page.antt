-- ===== src/Page.antt =====
-- The loop by which every module fills the page of its attribute `stat` from its ring:
-- show_stat_attr of xstat/xstat.c, and micstat_show_stat of the others.
pub mod Drain
pub mod Reader
pub mod Line
pub mod Last
pub mod History
use xstats.Base.{ℕ, zero, suc, ◌-◌, ◌/◌, ◌&&◌, List, [], ◌++◌, ltb, if◌then◌else◌, length}
use xstats.Base.Text.{Text}
use xstats.Kernel.{Result, ok, fault, ◌>>=◌}
use xstats.Ring
use xstats.Ring.{Ring, row_at}

-- PAGE_SIZE
abbrev pub page_size : ℕ
page_size = 4096

-- `print limit row` is the module's print_buffer.
module _ (ncnt nbuf : ℕ) (print : ℕ → List ℕ → Result Text) where
  -- Each round takes one row off, so `buffer_size` rounds are enough. A negative return ends the
  -- loop and keeps the row.
  pub drain : ℕ → ℕ → Ring → Result (Text × Ring)
  drain zero limit ring = ok ([], ring)
  drain (suc fuel) limit ring =
      let go_on = ltb (page_size / 2) limit && ltb 0 ring.buffer_size in
      let line = print limit (row_at ncnt ring.buffer ring.buffer_base) in
      let next : Result (Text × Ring) = elim line [
        | Result.ok text ↦ (do
          (more, ring') ← drain fuel (limit - length text) (Ring.drop_oldest ncnt nbuf ring)
          ok (text ++ more, ring'))
        | Result.failed ↦ ok ([], ring)
        | Result.fault ↦ fault
      ] in
      if go_on then next else ok ([], ring)

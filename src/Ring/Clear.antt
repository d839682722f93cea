-- ===== src/Ring/Clear.antt =====
-- How haswellstat/stat.c and micstat/micstat.c empty the ring and find the row written last, and that
-- this agrees with what xstat/xstat.c does.
use xstats.Base.{ℕ, ◌+◌, ◌-◌, ◌%◌, ◌<◌, ◌≡◌, refl, [], arith}
use xstats.Ring.{Ring, last_index}
use xstats.Ring.Refine.{IsValid, contents}

-- micstat_store_clear: the base stays, where `reset` moves it.
unfoldable pub clear : Ring → Ring
clear r = record r { buffer_size = 0; buffer_next = r.buffer_base }

-- `buffer_last` of micstat_show_last
unfoldable pub buffer_last : ℕ → Ring → ℕ
buffer_last nbuf r = (r.buffer_base + r.buffer_size - 1) % nbuf

pub clear_refines :
    (ncnt : ℕ) (r : Ring)
    → IsValid ncnt 128 r
    → IsValid ncnt 128 (clear r) × (contents ncnt 128 (clear r) ≡ [])
unfolding clear
clear_refines ncnt r v = (
  record { storage = v.storage; base_in = v.base_in; size_in = omega arith; next_at = omega arith },
  refl,
)

-- On a ring of 128 rows in order and not empty, the row that haswellstat and micstat take for the
-- newest, counted from the base, is the one that xstat takes, counted from where the next is written.
pub buffer_last-last_index :
    (ncnt : ℕ) (r : Ring)
    → IsValid ncnt 128 r
    → 0 < r.buffer_size
    → buffer_last 128 r ≡ last_index ncnt 128 r
unfolding buffer_last last_index
buffer_last-last_index ncnt r v h = omega arith

-- ===== src/Ring/Tests.antt =====
-- Rings of three rows of two words.
use xstats.Base.{ℕ, ◌≡◌, refl, List, [], ◌∷◌, arith}
use xstats.Kernel.{ok}
use xstats.Ring.{Ring, push}
use xstats.Ring.Refine.{IsValid, contents, append, push_refines}

-- Full: the oldest row is in the middle.
abbrev full_ring : Ring
full_ring = record {
  buffer = 5 ∷ 50 ∷ 3 ∷ 30 ∷ 4 ∷ 40 ∷ [];
  buffer_base = 1;
  buffer_next = 1;
  buffer_size = 3;
}

full_ring-IsValid : IsValid 2 3 full_ring
full_ring-IsValid = record {
  storage = refl;
  base_in = omega arith;
  size_in = omega arith;
  next_at = refl;
}

abbrev next_row : List ℕ
next_row = 6 ∷ 60 ∷ []

full_ring-contents : contents 2 3 full_ring ≡ (3 ∷ 30 ∷ []) ∷ (4 ∷ 40 ∷ []) ∷ (5 ∷ 50 ∷ []) ∷ []
full_ring-contents = refl

push_refines_example :
    (r' : Ring) × (push 2 3 full_ring next_row ≡ ok r')
    × IsValid 2 3 r'
    × (contents 2 3 r' ≡ append 3 (contents 2 3 full_ring) next_row)
push_refines_example = push_refines 2 3 full_ring next_row full_ring-IsValid refl

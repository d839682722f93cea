-- ===== src/Kernel/Printf.antt =====
-- The kernel's scnprintf, and a position in a buffer that is written by calls of it.
use xstats.Base.{
  ℕ, ◌-◌, ◌<◌, ◌≡◌, refl, ap, ◌∙◌, List, [], ◌∷◌, ◌++◌, arith, take, take_all, length,
  length-append, concat,
}
use xstats.Base.Text.{Text}
use xstats.Kernel.{Result, ok, ◌>>=◌}

-- `write limit s` is what a call with size `limit` stores before the final zero, where `s` is the
-- formatted text. Its length is the return value. Documented: it stores as much of `s` as fits.
pub record Scnprintf : Type 0 where
  pub write : ℕ → Text → Result Text
  pub write_lem : (limit : ℕ) (s : Text) → write limit s ≡ ok (take (limit - 1) s)

-- What fits is stored whole.
pub write_fits :
    (printf : Scnprintf) (limit : ℕ) (s : Text) → length s < limit → printf.write limit s ≡ ok s
write_fits printf limit s h =
    printf.write_lem limit s ∙ ap ok (take_all (limit - 1) s (omega arith))

-- Calls one after another, each with CHECK_RET, `ptr += ret` and `limit -= ret`.
unfoldable pub write_all : Scnprintf → ℕ → List Text → Result Text
write_all printf limit [] = ok []
write_all printf limit (s ∷ ss) = do
  done ← printf.write limit s
  rest ← write_all printf (limit - length done) ss
  ok (done ++ rest)

-- Texts that fit together are stored one after another, whole.
pub write_all_fits :
    (printf : Scnprintf) (limit : ℕ) (ss : List Text)
    → length (concat ss) < limit
    → write_all printf limit ss ≡ ok (concat ss)
unfolding write_all
write_all_fits printf limit [] h = refl
write_all_fits printf limit (s ∷ ss) h =
    let sizes = length-append s (concat ss) in
    rw
      (
        write_fits printf limit s (omega (arith, sizes)),
        write_all_fits printf (limit - length s) ss (omega (arith, sizes)),
      )
      refl

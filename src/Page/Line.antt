-- ===== src/Page/Line.antt =====
-- The function print_buffer of sbstat/sbstat.c, haswellstat/stat.c and micstat/micstat.c, which is the
-- same text over each module's table: the items of a row between braces.
use xstats.Base.{
  ℕ, ◌+◌, ◌-◌, ◌≤◌, ◌<◌, ◌≡◌, refl, List, [], ◌∷◌, ◌++◌, map, arith, length, length-append, get_or,
  sum,
}
use xstats.Base.Text.{Text, codes, show_ℕ, length-show_ℕ-le}
use xstats.Kernel.{Result, ok, ◌>>=◌}
use xstats.Kernel.Printf.{Scnprintf, write_fits}

-- `"\"%s\":%llu,"`, the item of a counter without a scnprintf, and with %u that of a field.
unfoldable pub plain_item : Text → ℕ → Text
plain_item name value = codes "\"" ++ (name ++ (codes "\":" ++ (show_ℕ value ++ codes ",")))

pub length-plain_item :
    (name : Text) (value : ℕ) → length name ≤ 7 → length (plain_item name value) ≤ 31
unfolding plain_item
length-plain_item name value h = omega (
  arith,
  length-append name (codes "\":" ++ (show_ℕ value ++ codes ",")),
  length-append (show_ℕ value) (codes ","),
  length-show_ℕ-le value,
)

-- `print_item c limit value` is a round of the loop: the counter's own scnprintf where it has one.
module _ {ℓ} {A : Type ℓ} (printf : Scnprintf) (print_item : A → ℕ → ℕ → Result Text) where
  pub print_items : List A → ℕ → List ℕ → ℕ → Result Text
  print_items [] i row limit = ok []
  print_items (c ∷ cs) i row limit = do
    item ← print_item c limit (get_or row i 0)
    rest ← print_items cs (i + 1) row (limit - length item)
    ok (item ++ rest)

  pub print_buffer : List A → ℕ → List ℕ → Result Text
  print_buffer table limit row = do
    start ← printf.write limit (codes "{")
    items ← print_items table 0 row (limit - length start)
    end ← printf.write (limit - length start - length items) (codes "}\n")
    ok (start ++ (items ++ end))

-- The text of an item.
module _ {ℓ} {A : Type ℓ} (item_text : A → ℕ → Text) where
  abbrev pub items_text : List A → ℕ → List ℕ → Text
  items_text [] i row = []
  items_text (c ∷ cs) i row = item_text c (get_or row i 0) ++ items_text cs (i + 1) row

  unfoldable pub line_text : List A → List ℕ → Text
  line_text table row = codes "{" ++ (items_text table 0 row ++ codes "}\n")

  length-items_text :
      (width : A → ℕ)
      → ((c : A) (value : ℕ) → length (item_text c value) ≤ width c)
      → (cs : List A) (i : ℕ) (row : List ℕ) → length (items_text cs i row) ≤ sum (map width cs)
  length-items_text width h [] i row = omega arith
  length-items_text width h (c ∷ cs) i row = omega (
    arith,
    length-append (item_text c (get_or row i 0)) (items_text cs (i + 1) row),
    h c (get_or row i 0),
    length-items_text width h cs (i + 1) row,
  )

  -- Items of bounded width make a line of bounded width.
  pub length-line_text :
      (width : A → ℕ)
      → ((c : A) (value : ℕ) → length (item_text c value) ≤ width c)
      → (cs : List A) (row : List ℕ) → length (line_text cs row) ≤ 3 + sum (map width cs)
  unfolding line_text
  length-line_text width h cs row =
      omega (
        arith,
        length-append (items_text cs 0 row) (codes "}\n"),
        length-items_text width h cs 0 row,
      )

  module _ (printf : Scnprintf) (print_item : A → ℕ → ℕ → Result Text)
      (whole : (c : A) (limit value : ℕ)
        → length (item_text c value) < limit
        → print_item c limit value ≡ ok (item_text c value)) where
    print_items_lem :
        (cs : List A) (i : ℕ) (row : List ℕ) (limit : ℕ)
        → length (items_text cs i row) < limit
        → print_items printf print_item cs i row limit ≡ ok (items_text cs i row)
    unfolding print_items
    print_items_lem [] i row limit h = refl
    print_items_lem (c ∷ cs) i row limit h =
        let item : Text = item_text c (get_or row i 0) in
        let sizes = length-append item (items_text cs (i + 1) row) in
        rw
          (
            whole c limit (get_or row i 0) (omega (arith, sizes)),
            print_items_lem cs (i + 1) row (limit - length item) (omega (arith, sizes)),
          )
          refl

    -- Where every item is printed whole in enough room, so is the line.
    pub print_buffer_whole :
        (cs : List A) (limit : ℕ) (row : List ℕ)
        → length (line_text cs row) < limit
        → print_buffer printf print_item cs limit row ≡ ok (line_text cs row)
    unfolding print_buffer line_text
    print_buffer_whole cs limit row h =
        let items : Text = items_text cs 0 row in
        let sizes = length-append items (codes "}\n") in
        rw
          (
            write_fits printf limit (codes "{") (omega (arith, sizes)),
            print_items_lem cs 0 row (limit - 1) (omega (arith, sizes)),
            write_fits printf (limit - 1 - length items) (codes "}\n") (omega (arith, sizes)),
          )
          refl

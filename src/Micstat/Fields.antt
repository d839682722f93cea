-- ===== src/Micstat/Fields.antt =====
-- The unions of micstat that lay named bytes over a sample, and what is printed of them.
use xstats.Base.{
  ℕ, ◌*◌, ◌^◌, ◌≤◌, ◌<◌, ◌≡◌, refl, ap, ◌∙◌, List, [], ◌∷◌, arith, length, length-append, concat,
  All, get_or,
}
use xstats.Base.Text.{Text}
use xstats.Base.Bytes.{pack, byte, byte-pack}
use xstats.Kernel.{ok}
use xstats.Kernel.Printf.{Scnprintf, write_all, write_all_fits}
use xstats.Page.Line.{plain_item, length-plain_item}

-- A field of a union, by its name and its byte.
abbrev pub Field : Type 0
Field = Text × ℕ

abbrev pub fields_text : List Field → ℕ → List Text
fields_text [] w = []
fields_text ((name, i) ∷ fields) w = plain_item name (byte i w) ∷ fields_text fields w

-- The text of eight bytes under the names of `fields`.
abbrev pub bytes_text : List Field → List ℕ → List Text
bytes_text [] bytes = []
bytes_text ((name, i) ∷ fields) bytes = plain_item name (get_or bytes i 0) ∷ bytes_text fields bytes

pub fields_text-pack :
    (fields : List Field) (bytes : List ℕ)
    → All (λ b. b < 2 ^ 8) bytes
    → fields_text fields (pack bytes) ≡ bytes_text fields bytes
fields_text-pack [] bytes h = refl
fields_text-pack ((name, i) ∷ fields) bytes h =
    rw (byte-pack bytes i h, fields_text-pack fields bytes h) refl

pub length-fields_text :
    (fields : List Field) (w : ℕ)
    → All (λ f. length f.0 ≤ 7) fields
    → length (concat (fields_text fields w)) ≤ 31 * length fields
length-fields_text [] w h = omega arith
length-fields_text ((name, i) ∷ fields) w h = omega (
  arith,
  length-append (plain_item name (byte i w)) (concat (fields_text fields w)),
  length-plain_item name (byte i w) h.0,
  length-fields_text fields w h.1,
)

-- What the round trip of a sample of bytes prints.
pub write_all-pack :
    (printf : Scnprintf) (fields : List Field) (bytes : List ℕ) (limit : ℕ)
    → All (λ f. length f.0 ≤ 7) fields
    → All (λ b. b < 2 ^ 8) bytes
    → 31 * length fields < limit
    → write_all printf limit (fields_text fields (pack bytes))
      ≡ ok (concat (bytes_text fields bytes))
write_all-pack printf fields bytes limit names small h =
    write_all_fits printf limit (fields_text fields (pack bytes))
      (omega (arith, length-fields_text fields (pack bytes) names))
    ∙ ap (λ t. ok (concat t)) (fields_text-pack fields bytes small)

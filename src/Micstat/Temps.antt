-- ===== src/Micstat/Temps.antt =====
-- The counters temp and temp2 of micstat.
use xstats.Base.{ℕ, ◌/◌, ◌%◌, ◌^◌, ◌<◌, ◌≡◌, ap, ◌∙◌, List, [], ◌∷◌, Option, arith, concat, u8}
use xstats.Base.Text.{Text, codes}
use xstats.Base.Bytes.{pack}
use xstats.Kernel.{Result, ok}
use xstats.Kernel.Printf.{Scnprintf, write_all}
use xstats.Page.Line.{plain_item}
use xstats.Micstat.Fields.{Field, fields_text, write_all-pack}
use xstats.Micstat.Smc.{smc_byte, get_bits, get_bits_lem, Bus, mr_smc_rd, reading}

-- temp2_union
abbrev pub temp2_fields : List Field
temp2_fields =
    (codes "tdie1", 0)
    ∷ (codes "tdie2", 1)
    ∷ (codes "tdie3", 2)
    ∷ (codes "tdie4", 3)
    ∷ (codes "tdie5", 4)
    ∷ (codes "tdie6", 5)
    ∷ (codes "tdie7", 6)
    ∷ (codes "tdie8", 7)
    ∷ []

-- The words are those of SBOX_CURRENT_DIE_TEMP0, 1 and 2. Each field is cut to its eight bits.
pub temp2_restart : (die1 die2 die3 : ℕ) → ℕ
temp2_restart die1 die2 die3 = pack (
    u8 (get_bits 19 10 die1)
    ∷ u8 (get_bits 29 20 die1)
    ∷ u8 (get_bits 9 0 die2)
    ∷ u8 (get_bits 19 10 die2)
    ∷ u8 (get_bits 29 20 die2)
    ∷ u8 (get_bits 9 0 die3)
    ∷ u8 (get_bits 19 10 die3)
    ∷ u8 (get_bits 29 20 die3)
    ∷ [])

unfoldable pub temp2_scnprintf : Scnprintf → ℕ → ℕ → Result Text
temp2_scnprintf printf limit w = write_all printf limit (fields_text temp2_fields w)

-- temp_union, in the order that temp_scnprintf prints its fields.
abbrev pub temp_fields : List Field
temp_fields =
    (codes "tfin", 1)
    ∷ (codes "tvccp", 4)
    ∷ (codes "tgddr", 3)
    ∷ (codes "tvddq", 6)
    ∷ (codes "tvddg", 5)
    ∷ (codes "tdie", 0)
    ∷ (codes "tfout", 2)
    ∷ (codes "tdie0", 7)
    ∷ []

-- The value, the new `lastdie`, and the registers asked for. `die0` is SBOX_CURRENT_DIE_TEMP0.
pub record Sampled : Type 0 where
  pub value : ℕ
  pub lastdie : ℕ
  pub asked : List ℕ

pub temp_restart : Bus → (die0 : ℕ) → List ℕ → Sampled
temp_restart smc die0 asked =
    let die = mr_smc_rd smc 0x40 asked in
    let fout = mr_smc_rd smc 0x41 die.asked in
    let fin = mr_smc_rd smc 0x42 fout.asked in
    let vccp = mr_smc_rd smc 0x43 fin.asked in
    let vddg = mr_smc_rd smc 0x44 vccp.asked in
    let vddq = mr_smc_rd smc 0x45 vddg.asked in
    let gddr = mr_smc_rd smc 0x46 vddq.asked in
    record {
      value = pack (
          u8 (get_bits 15 0 die.val)
          ∷ u8 (get_bits 15 0 fin.val)
          ∷ u8 (get_bits 15 0 fout.val)
          ∷ u8 (get_bits 15 0 gddr.val)
          ∷ u8 (get_bits 15 0 vccp.val)
          ∷ u8 (get_bits 15 0 vddg.val)
          ∷ u8 (get_bits 15 0 vddq.val)
          ∷ u8 (get_bits 9 0 die0)
          ∷ []);
      lastdie = die.val;
      asked = gddr.asked;
    }

unfoldable pub temp_scnprintf : Scnprintf → ℕ → ℕ → Result Text
temp_scnprintf printf limit w = write_all printf limit (fields_text temp_fields w)

field_low : (v : ℕ) → u8 (get_bits 9 0 v) ≡ v % 2 ^ 8
field_low v = omega (arith, get_bits_lem 9 0 v)

field_mid : (v : ℕ) → u8 (get_bits 19 10 v) ≡ v / 2 ^ 10 % 2 ^ 8
field_mid v = omega (arith, get_bits_lem 19 10 v)

field_high : (v : ℕ) → u8 (get_bits 29 20 v) ≡ v / 2 ^ 20 % 2 ^ 8
field_high v = omega (arith, get_bits_lem 29 20 v)

-- The bytes of a sample, where the bus gives the same answers all the time.
abbrev pub temp_bytes : (ℕ → Option ℕ) → ℕ → List ℕ
temp_bytes answers die0 =
    reading answers 0x40 % 2 ^ 8
    ∷ reading answers 0x42 % 2 ^ 8
    ∷ reading answers 0x41 % 2 ^ 8
    ∷ reading answers 0x46 % 2 ^ 8
    ∷ reading answers 0x43 % 2 ^ 8
    ∷ reading answers 0x44 % 2 ^ 8
    ∷ reading answers 0x45 % 2 ^ 8
    ∷ die0 % 2 ^ 8
    ∷ []

temp_restart_lem :
    (answers : ℕ → Option ℕ) (die0 : ℕ) (asked : List ℕ)
    → (temp_restart (λ n. answers) die0 asked).value ≡ pack (temp_bytes answers die0)
unfolding temp_restart
temp_restart_lem answers die0 asked = simp (smc_byte answers, field_low)

-- Where the bus gives the same answers all the time and there is room, the text of a temperature
-- sample has the low byte of each reading under its sensor's name: the inlet from register 0x42,
-- then 0x43, 0x46, 0x45, 0x44, the highest die from 0x40, the exhaust from 0x41, and the low byte
-- of the die register; a register that is not answered reads as 0.
pub temp_scnprintf-temp_restart :
    (printf : Scnprintf) (answers : ℕ → Option ℕ) (die0 : ℕ) (asked : List ℕ) (limit : ℕ)
    → 248 < limit
    → let low = λ (reg : ℕ). reading answers reg % 2 ^ 8 in
      temp_scnprintf printf limit (temp_restart (λ n. answers) die0 asked).value
      ≡ ok (
          concat (
            plain_item (codes "tfin") (low 0x42)
            ∷ plain_item (codes "tvccp") (low 0x43)
            ∷ plain_item (codes "tgddr") (low 0x46)
            ∷ plain_item (codes "tvddq") (low 0x45)
            ∷ plain_item (codes "tvddg") (low 0x44)
            ∷ plain_item (codes "tdie") (low 0x40)
            ∷ plain_item (codes "tfout") (low 0x41)
            ∷ plain_item (codes "tdie0") (die0 % 2 ^ 8)
            ∷ []))
unfolding temp_scnprintf
temp_scnprintf-temp_restart printf answers die0 asked limit h =
    ap (λ w. write_all printf limit (fields_text temp_fields w))
      (temp_restart_lem answers die0 asked)
    ∙ write_all-pack printf temp_fields (temp_bytes answers die0) limit (omega arith) (omega arith)
        h

abbrev temp2_bytes : (die1 die2 die3 : ℕ) → List ℕ
temp2_bytes die1 die2 die3 =
    die1 / 2 ^ 10 % 2 ^ 8
    ∷ die1 / 2 ^ 20 % 2 ^ 8
    ∷ die2 % 2 ^ 8
    ∷ die2 / 2 ^ 10 % 2 ^ 8
    ∷ die2 / 2 ^ 20 % 2 ^ 8
    ∷ die3 % 2 ^ 8
    ∷ die3 / 2 ^ 10 % 2 ^ 8
    ∷ die3 / 2 ^ 20 % 2 ^ 8
    ∷ []

temp2_restart_lem :
    (die1 die2 die3 : ℕ) → temp2_restart die1 die2 die3 ≡ pack (temp2_bytes die1 die2 die3)
unfolding temp2_restart
temp2_restart_lem die1 die2 die3 = simp (field_low, field_mid, field_high)

-- Where there is room, the text of a die temperature sample has the eight fields of ten bits of the
-- three registers, each cut to its low byte.
pub temp2_scnprintf-temp2_restart :
    (printf : Scnprintf) (die1 die2 die3 limit : ℕ)
    → 248 < limit
    → temp2_scnprintf printf limit (temp2_restart die1 die2 die3)
      ≡ ok (
          concat (
            plain_item (codes "tdie1") (die1 / 2 ^ 10 % 2 ^ 8)
            ∷ plain_item (codes "tdie2") (die1 / 2 ^ 20 % 2 ^ 8)
            ∷ plain_item (codes "tdie3") (die2 % 2 ^ 8)
            ∷ plain_item (codes "tdie4") (die2 / 2 ^ 10 % 2 ^ 8)
            ∷ plain_item (codes "tdie5") (die2 / 2 ^ 20 % 2 ^ 8)
            ∷ plain_item (codes "tdie6") (die3 % 2 ^ 8)
            ∷ plain_item (codes "tdie7") (die3 / 2 ^ 10 % 2 ^ 8)
            ∷ plain_item (codes "tdie8") (die3 / 2 ^ 20 % 2 ^ 8)
            ∷ []))
unfolding temp2_scnprintf
temp2_scnprintf-temp2_restart printf die1 die2 die3 limit h =
    ap (λ w. write_all printf limit (fields_text temp2_fields w)) (temp2_restart_lem die1 die2 die3)
    ∙ write_all-pack printf temp2_fields (temp2_bytes die1 die2 die3) limit (omega arith)
        (omega arith) h

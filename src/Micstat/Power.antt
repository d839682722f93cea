-- ===== src/Micstat/Power.antt =====
-- The counters power and volt of micstat, and fan, which is not in its table.
use xstats.Base.{
  ℕ, ◌+◌, ◌*◌, ◌/◌, ◌%◌, ◌^◌, ◌≤◌, ◌<◌, ◌≡◌, ap, ap₂, ◌∙◌, List, [], ◌∷◌, Option, arith, length,
  length-append, concat, u8,
}
use xstats.Base.Text.{Text, codes}
use xstats.Base.Bytes.{pack}
use xstats.Kernel.{Result, ok}
use xstats.Kernel.Printf.{Scnprintf, write_all, write_all_fits}
use xstats.Page.Line.{plain_item, length-plain_item}
use xstats.Micstat.Fields.{Field, fields_text, fields_text-pack, length-fields_text}
use xstats.Micstat.Smc.{smc_byte, get_bits, get_bits_lem, Bus, mr_smc_rd, reading, mr_smc_rd-val}

-- power_union after its first field `avgpwr`, which has 16 bits.
abbrev pub power_fields : List Field
power_fields =
    (codes "pciepwr", 0)
    ∷ (codes "c2x3pwr", 1)
    ∷ (codes "c2x4pwr", 2)
    ∷ (codes "vccppwr", 3)
    ∷ (codes "vddgpwr", 4)
    ∷ (codes "vddqpwr", 5)
    ∷ []

-- A value and the registers asked for.
pub power_restart : Bus → List ℕ → ℕ × List ℕ
power_restart smc asked =
    let vccp = mr_smc_rd smc 0x58 asked in
    let vddg = mr_smc_rd smc 0x5a vccp.asked in
    let vddq = mr_smc_rd smc 0x59 vddg.asked in
    let prd1 = mr_smc_rd smc 0x36 vddq.asked in
    let pcie = mr_smc_rd smc 0x28 prd1.asked in
    let p2x3 = mr_smc_rd smc 0x29 pcie.asked in
    let p2x4 = mr_smc_rd smc 0x2a p2x3.asked in
    (
      get_bits 29 0 prd1.val % 2 ^ 16
          + 2 ^ 16
            * pack (
                u8 (get_bits 15 0 pcie.val)
                ∷ u8 (get_bits 15 0 p2x3.val)
                ∷ u8 (get_bits 15 0 p2x4.val)
                ∷ u8 (get_bits 15 0 vccp.val)
                ∷ u8 (get_bits 15 0 vddg.val)
                ∷ u8 (get_bits 15 0 vddq.val)
                ∷ []),
      p2x4.asked,
    )

abbrev pub power_text : ℕ → List Text
power_text w = plain_item (codes "avgpwr") (w % 2 ^ 16) ∷ fields_text power_fields (w / 2 ^ 16)

unfoldable pub power_scnprintf : Scnprintf → ℕ → ℕ → Result Text
power_scnprintf printf limit w = write_all printf limit (power_text w)

pub volt_restart : Bus → List ℕ → ℕ × List ℕ
volt_restart smc asked =
    let smc_val = mr_smc_rd smc 0x3c asked in (get_bits 15 0 smc_val.val * 1000, smc_val.asked)

pub fan_restart : Bus → List ℕ → ℕ × List ℕ
fan_restart smc asked =
    let fan_rd = mr_smc_rd smc 0x49 asked in (get_bits 15 0 fan_rd.val, fan_rd.asked)

abbrev power_bytes : (ℕ → Option ℕ) → List ℕ
power_bytes answers =
    reading answers 0x28 % 2 ^ 8
    ∷ reading answers 0x29 % 2 ^ 8
    ∷ reading answers 0x2a % 2 ^ 8
    ∷ reading answers 0x58 % 2 ^ 8
    ∷ reading answers 0x5a % 2 ^ 8
    ∷ reading answers 0x59 % 2 ^ 8
    ∷ []

low_word :
    (answers : ℕ → Option ℕ) (reg : ℕ) (asked : List ℕ)
    → get_bits 29 0 (mr_smc_rd (λ n. answers) reg asked).val % 2 ^ 16 ≡ reading answers reg % 2 ^ 16
low_word answers reg asked = omega (
  arith,
  get_bits_lem 29 0 (mr_smc_rd (λ n. answers) reg asked).val,
  mr_smc_rd-val answers reg asked,
)

power_restart_lem :
    (answers : ℕ → Option ℕ) (asked : List ℕ)
    → (power_restart (λ n. answers) asked).0
      ≡ reading answers 0x36 % 2 ^ 16 + 2 ^ 16 * pack (power_bytes answers)
unfolding power_restart
power_restart_lem answers asked = simp (smc_byte answers, low_word answers)

pub length-power_text : (w : ℕ) → length (concat (power_text w)) ≤ 217
length-power_text w = omega (
  arith,
  length-append (plain_item (codes "avgpwr") (w % 2 ^ 16))
      (concat (fields_text power_fields (w / 2 ^ 16))),
  length-plain_item (codes "avgpwr") (w % 2 ^ 16) (omega arith),
  length-fields_text power_fields (w / 2 ^ 16) (omega arith),
)

-- Where the bus gives the same answers all the time and there is room, the text of a power sample has
-- the low 16 bits of register 0x36 as the average and the low byte of each other reading under its
-- name: from registers 0x28, 0x29, 0x2a, 0x58, 0x5a and 0x59; a register that is not answered
-- reads as 0.
pub power_scnprintf-power_restart :
    (printf : Scnprintf) (answers : ℕ → Option ℕ) (asked : List ℕ) (limit : ℕ)
    → 217 < limit
    → let low = λ (reg : ℕ). reading answers reg % 2 ^ 8 in
      power_scnprintf printf limit (power_restart (λ n. answers) asked).0
      ≡ ok (
          concat (
            plain_item (codes "avgpwr") (reading answers 0x36 % 2 ^ 16)
            ∷ plain_item (codes "pciepwr") (low 0x28)
            ∷ plain_item (codes "c2x3pwr") (low 0x29)
            ∷ plain_item (codes "c2x4pwr") (low 0x2a)
            ∷ plain_item (codes "vccppwr") (low 0x58)
            ∷ plain_item (codes "vddgpwr") (low 0x5a)
            ∷ plain_item (codes "vddqpwr") (low 0x59)
            ∷ []))
unfolding power_scnprintf
power_scnprintf-power_restart printf answers asked limit h =
    let avg = reading answers 0x36 % 2 ^ 16 in
    let rest = pack (power_bytes answers) in
    let w : ℕ = avg + 2 ^ 16 * rest in
    let low : w % 2 ^ 16 ≡ avg = omega arith in
    let high : w / 2 ^ 16 ≡ rest = omega arith in
    ap (λ v. write_all printf limit (power_text v)) (power_restart_lem answers asked)
    ∙ write_all_fits printf limit (power_text w) (omega (arith, length-power_text w))
    ∙ ap₂ (λ a t. ok (concat (plain_item (codes "avgpwr") a ∷ t))) low
        (ap (fields_text power_fields) high
          ∙ fields_text-pack power_fields (power_bytes answers) (omega arith))

-- A voltage is the low 16 bits of the reading, in thousandths.
pub volt_restart_lem :
    (answers : ℕ → Option ℕ) (asked : List ℕ)
    → (volt_restart (λ n. answers) asked).0 ≡ reading answers 0x3c % 2 ^ 16 * 1000
unfolding volt_restart
volt_restart_lem answers asked = omega (
  arith,
  get_bits_lem 15 0 (mr_smc_rd (λ n. answers) 0x3c asked).val,
  mr_smc_rd-val answers 0x3c asked,
)

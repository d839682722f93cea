-- ===== src/Xstat/Ipmi/Receive.antt =====
-- What a response does to a group, and the life of the groups' users.
use native.Mathlib.Decide.{dec_le}
use xstats.Base.{
  ℕ, zero, suc, ◌≤◌, ◌<◌, ◌≡◌, ◌≢◌, refl, ap, ap₂, ◌⊎◌, inl, inr, List, [], ◌∷◌, ◌^◌, ◌++◌, Option,
  none, some, arith, length, get_elem?, get_elem?-some, get_elem?-none, set, All, lt→ltb,
  Option-cases,
}
use xstats.Xstat.World.{
  IpmiSensorCtx, IpmiSensorsCtx, Group, group_a, group_b, misc, IpmiSensors, group,
}
use xstats.Xstat.Ipmi.{msg_handler, register_bmc, register_user, exit, destroyed}
use xstats.Xstat.Ipmi.Sensors.{IsSensor}

abbrev pub user_list : Option ℕ → List ℕ
user_list none = []
user_list (some u) = u ∷ []

-- The group with sensor `i` holding `reading`, whatever it held before.
abbrev pub with_reading : List IpmiSensorCtx → ℕ → ℕ → List IpmiSensorCtx
with_reading [] i reading = []
with_reading (c ∷ cs) zero reading = record c { sensor_reading = reading } ∷ cs
with_reading (c ∷ cs) (suc i) reading = c ∷ with_reading cs i reading

set-with_reading :
    (cs : List IpmiSensorCtx) (i reading : ℕ) (c : IpmiSensorCtx)
    → get_elem? cs i ≡ some c
    → set cs i (record c { sensor_reading = reading }) ≡ with_reading cs i reading
set-with_reading [] i reading c h = refl
set-with_reading (d ∷ cs) zero reading c h = ground arith
set-with_reading (d ∷ cs) (suc i) reading c h = ap (λ t. d ∷ t) (set-with_reading cs i reading c h)

-- A response of more than two bytes for a sensor of the group sets that sensor's reading to its
-- second byte and changes nothing else.
pub msg_handler_accepts :
    (root : IpmiSensorsCtx) (i code reading third : ℕ) (rest : List ℕ)
    → i < length root.ctxs
    → msg_handler root (some i) (code ∷ reading ∷ third ∷ rest)
      ≡ record root { ctxs = with_reading root.ctxs i reading }
unfolding msg_handler
msg_handler_accepts root i code reading third rest h =
    let (c, found) = get_elem?-some root.ctxs i h in
    rw (found, msg_handler, lt→ltb 2 (suc (suc (suc (length rest)))) (omega arith))
      (ap (λ t. record root { ctxs = t }) (set-with_reading root.ctxs i reading c found))

msg_handler_out :
    (root : IpmiSensorsCtx) (i : ℕ) (payload : List ℕ)
    → length root.ctxs ≤ i
    → msg_handler root (some i) payload ≡ root
unfolding msg_handler
msg_handler_out root i payload out = rw (get_elem?-none root.ctxs i out, msg_handler) refl

-- A message for no sensor of the group, or of at most two bytes, changes nothing.
pub msg_handler_ignores :
    (root : IpmiSensorsCtx) (sensor : Option ℕ) (payload : List ℕ)
    → ((i : ℕ) → sensor ≡ some i → length root.ctxs ≤ i) ⊎ (length payload ≤ 2)
    → msg_handler root sensor payload ≡ root
unfolding msg_handler
msg_handler_ignores root none payload h = refl
msg_handler_ignores root (some i) payload (inl out) =
    rw (get_elem?-none root.ctxs i (out i refl), msg_handler) refl
msg_handler_ignores root (some i) payload (inr short) =
    ground (arith, Option-cases (get_elem? root.ctxs i), Option-cases (get_elem? payload 1))

-- What a message does to a group: where it is a response of more than two bytes for a sensor of the
-- group, it sets that sensor's reading to its second byte and changes nothing else; where it is for no
-- sensor of the group or has at most two bytes, it changes nothing.
pub msg_handler_lem :
    (root : IpmiSensorsCtx) (sensor : Option ℕ) (payload : List ℕ)
    → ((i : ℕ) × (reading : ℕ) × (sensor ≡ some i)
        × (i < length root.ctxs)
        × (2 < length payload)
        × (get_elem? payload 1 ≡ some reading)
        × (msg_handler root sensor payload
            ≡ record root { ctxs = with_reading root.ctxs i reading }))
      ⊎ (((sensor ≡ none)
            ⊎ ((i : ℕ) × (sensor ≡ some i) × (length root.ctxs ≤ i))
            ⊎ (length payload ≤ 2))
          × (msg_handler root sensor payload ≡ root))
msg_handler_lem root none payload = inr (inl refl, unfold msg_handler in refl)
msg_handler_lem root (some i) [] =
    inr (inr (inr (omega arith)), msg_handler_ignores root (some i) [] (inr (omega arith)))
msg_handler_lem root (some i) (a ∷ []) =
    inr (inr (inr (omega arith)), msg_handler_ignores root (some i) (a ∷ []) (inr (omega arith)))
msg_handler_lem root (some i) (a ∷ b ∷ []) =
    inr
      (inr (inr (omega arith)), msg_handler_ignores root (some i) (a ∷ b ∷ []) (inr (omega arith)))
msg_handler_lem root (some i) (a ∷ b ∷ c ∷ rest) = elim (dec_le (length root.ctxs) i) [
  | yes out ↦ inr (inr (inl (i, refl, out)), msg_handler_out root i (a ∷ b ∷ c ∷ rest) out)
  | no inside ↦ inl (
    i,
    b,
    refl,
    omega arith,
    omega arith,
    refl,
    msg_handler_accepts root i a b c rest (omega arith),
  )
]

with_reading-All :
    (cs : List IpmiSensorCtx) (i reading : ℕ)
    → reading < 2 ^ 8
    → All IsSensor cs
    → All IsSensor (with_reading cs i reading)
with_reading-All [] i reading h v = tt
with_reading-All (c ∷ cs) zero reading h v = (
  record {
    name_short = v.0.name_short;
    base_small = v.0.base_small;
    mul_small = v.0.mul_small;
    reading_small = h;
  },
  v.1,
)
with_reading-All (c ∷ cs) (suc i) reading h v = (v.0, with_reading-All cs i reading h v.1)

-- The users that the module creates for a fresh interface, in the order of the counters.
abbrev pub created : (Group → Option ℕ) → List ℕ
created create =
    user_list (create group_a) ++ (user_list (create group_b) ++ user_list (create misc))

register_twice :
    (create again : Group → Option ℕ) (g : Group) (ctx : IpmiSensorsCtx)
    → ctx.user ≡ none
    → create g ≢ none
    → destroyed (register_user again g (register_user create g ctx)) ≡ user_list (create g)
unfolding register_user destroyed
register_twice create again g ctx fresh made = elim (Option-cases (create g)) [
  | inl e ↦ absurd (made e)
  | inr (u, e) ↦ ground arith
]

pub exit_clears : (s : IpmiSensors) (g : Group) → (group g (exit s).0).user ≡ none
unfolding exit
exit_clears s group_a = refl
exit_clears s group_b = refl
exit_clears s misc = refl

-- After the module let go of its users, registering an interface creates a user for each group,
-- registering another one replaces none of them, and leaving destroys exactly these, in order, and
-- keeps none, provided that the first interface refuses no user.
pub exit-register_bmc :
    (create again : Group → Option ℕ) (s : IpmiSensors)
    → ((g : Group) → create g ≢ none)
    → let s' = exit (register_bmc again (register_bmc create (exit s).0)) in
      (s'.1 ≡ created create) × ((g : Group) → (group g s'.0).user ≡ none)
unfolding exit register_bmc
exit-register_bmc create again s h = (
  ap₂ ◌++◌ (register_twice create again group_a _ refl (h group_a)) (
      ap₂ ◌++◌ (register_twice create again group_b _ refl (h group_b))
        (register_twice create again misc _ refl (h misc))),
  exit_clears (register_bmc again (register_bmc create (exit s).0)),
)

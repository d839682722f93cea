-- ===== src/Kernel.antt =====
-- How a call of the modules ends, and the parts of the Linux kernel that they call.
pub mod Printf
use xstats.Base.{◌≡◌, refl, Option, none, some}

-- `failed` is a negative return value; `fault` is an access through a null or stray pointer.
pub data Result {ℓ} (A : Type ℓ) : Type ℓ where
  ok : A → Result A
  failed fault : Result A

infixl 5 ◌>>=◌
abbrev pub ◌>>=◌ {ℓ κ} : {A : Type ℓ} {B : Type κ} → Result A → (A → Result B) → Result B
ok a >>= f = f a
failed >>= f = failed
fault >>= f = fault

-- A value read through a pointer.
abbrev pub or_fault {ℓ} : {A : Type ℓ} → Option A → Result A
or_fault none = fault
or_fault (some a) = ok a

pub >>=_assoc {ℓ κ μ} :
    {A : Type ℓ} {B : Type κ} {C : Type μ} (m : Result A) (f : A → Result B) (g : B → Result C)
    → ((m >>= f) >>= g) ≡ (m >>= λ a. f a >>= g)
>>=_assoc (ok a) f g = refl
>>=_assoc failed f g = refl
>>=_assoc fault f g = refl

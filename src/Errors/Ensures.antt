-- ===== src/Errors/Ensures.antt =====
-- Postconditions of calls that may fail: one rule for each way to build such a call.
use mathlib.Core.Path.{subst}
use linea_core.Prelude.{◌≡◌, refl, Bool, true, false, if◌then◌else◌}
use linea_core.Errors.{Result, Error, ok, err, ◌>>=◌}

-- If the call succeeds, its result satisfies `P`.
pub record Ensures {ℓ κ} {A : Type ℓ} (P : A → Type κ) (r : Result A) : Type (ℓ ⊔ κ) where
  pub at : (a : A) → r ≡ ok a → P a

ok-injective {ℓ} : {A : Type ℓ} {a b : A} → ok a ≡ ok b → a ≡ b
ok-injective e = cc

module _ {ℓ κ} {A : Type ℓ} {P : A → Type κ} where
  pub Ensures-ok : (a : A) → P a → Ensures P (ok a)
  Ensures-ok a h = record { at = λ b e. subst P (ok-injective e) h }

  pub Ensures-err : (e : Error) → Ensures P (err e)
  Ensures-err e = record { at = λ a h. absurd (cc) }

  pub Ensures-if :
      (b : Bool) (m n : Result A)
      → (b ≡ true → Ensures P m)
      → (b ≡ false → Ensures P n)
      → Ensures P (if b then m else n)
  Ensures-if true m n km kn = km refl
  Ensures-if false m n km kn = kn refl

module _ {ℓ κ λ'} {A : Type ℓ} {B : Type κ} {P : B → Type λ'} where
  -- The rest of the chain may use that the first call gave `a`.
  pub Ensures-bind :
      (m : Result A) (f : A → Result B)
      → ((a : A) → m ≡ ok a → Ensures P (f a))
      → Ensures P (m >>= f)
  Ensures-bind (ok a) f k = k a refl
  Ensures-bind (err e) f k = Ensures-err e

pub ruleset ensures_rules = (Ensures-ok, Ensures-err, Ensures-if, Ensures-bind)

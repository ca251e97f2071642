-- ===== src/Errors.antt =====
-- errors/errors.go: error codes, wrapping, and the tests on the code that an error carries.
-- Messages are for people, no code branches on them, and they are not modelled.
pub mod Ensures
use linea_core.Prelude.{
  Bool, true, false, ◌||◌, Option, none, some, Eq, ◌==◌, ◌≡◌, ◌↔◌, arith, inl, inr, refl, ◌⊎◌,
}

-- Each constructor is the constant `Code…` of the same words.
pub data Code : Type 0 where
  no_known_connection person_not_found relationship_not_found source_not_found : Code
  proposal_not_found invalid_transition immutable_terminal_proposal cycle_detected : Code
  forbidden_relationship fabrication_attempt version_not_found invalid_argument : Code

unfoldable pub Code-discrete : Discrete Code
Code-discrete = hlevel

unfoldable pub code_eq : Code → Code → Bool
unfolding Code-discrete
code_eq a b = elim (Code-discrete a b) [ yes _ ↦ true | no _ ↦ false ]

pub code_eq_iff : (a b : Code) → (code_eq a b ≡ true) ↔ (a ≡ b)
unfolding code_eq
code_eq_iff a b = ground arith

instance abbrev pub code_Eq : Eq Code
code_Eq = record { test = code_eq; agrees = code_eq_iff }

-- `new c` is New(c, …) and `wrap c e` is Wrap(c, …, e). `plain` is an error without a code, made by
-- fmt.Errorf, and `annotated e` one that fmt.Errorf makes with %w around e. `out_of_fuel` is the
-- model's own: a loop of the model that was given too few rounds.
pub data Error : Type 0 where
  new : Code → Error
  wrap : Code → Error → Error
  plain : Error
  annotated : Error → Error
  out_of_fuel : Error

-- errors.As(err, &e) for a *Error: the first one along the chain, here its code.
unfoldable pub as_code : Error → Option Code
as_code (new c) = some c
as_code (wrap c e) = some c
as_code plain = none
as_code (annotated e) = as_code e
as_code out_of_fuel = none

-- The method Is of a *Error with code `c`.
unfoldable pub is : Code → Error → Bool
is c target = elim (as_code target) [ none ↦ false | some d ↦ c == d ]

-- errors.Is(err, target) where the target is itself a *Error, with code `c`: some error along the
-- chain of `err` is the target, or its method Is accepts it. A *Error that is the target has its
-- code, so the method accepts it too. Targets that are no *Error are left out: the model does not
-- tell two errors without a code apart.
unfoldable pub errors_is : Error → Code → Bool
errors_is (new d) c = is d (new c)
errors_is (wrap d e) c = is d (new c) || errors_is e c
errors_is plain c = false
errors_is (annotated e) c = errors_is e c
errors_is out_of_fuel c = false

unfoldable pub has_code : Error → Code → Bool
has_code err c = elim (as_code err) [ none ↦ false | some d ↦ d == c ]

unfoldable pub is_no_known_connection : Error → Bool
unfolding has_code
is_no_known_connection err = has_code err no_known_connection

abbrev pub err_no_known_connection : Error
err_no_known_connection = new no_known_connection

-- A code that HasCode finds in an error, errors.Is finds in it too, given any *Error with that code.
pub has_code-errors_is : (err : Error) (c : Code) → has_code err c ≡ true → errors_is err c ≡ true
unfolding has_code errors_is is as_code
has_code-errors_is (new d) c h = h
has_code-errors_is (wrap d e) c h = ground arith
has_code-errors_is plain c h = h
has_code-errors_is (annotated e) c h = has_code-errors_is e c h
has_code-errors_is out_of_fuel c h = h

-- What a call returns that may fail: an error, or a value.
pub data Result {ℓ} (A : Type ℓ) : Type ℓ where
  err : Error → Result A
  ok : A → Result A

module _ {ℓ κ} {A : Type ℓ} {B : Type κ} where
  abbrev pub map_ok : (A → B) → Result A → Result B
  map_ok f (err e) = err e
  map_ok f (ok a) = ok (f a)

  infixl 5 ◌>>=◌ ◌>>◌
  abbrev pub ◌>>=◌ : Result A → (A → Result B) → Result B
  err e >>= k = err e
  ok a >>= k = k a

  abbrev pub ◌>>◌ : Result A → Result B → Result B
  m >> n = m >>= λ _. n

-- if bad { return err }
abbrev pub refuse_if : Bool → Error → Result (Unit {0})
refuse_if true e = err e
refuse_if false e = ok tt

pub Result-cases {ℓ} :
    {A : Type ℓ} (r : Result A) → ((a : A) × (r ≡ ok a)) ⊎ ((e : Error) × (r ≡ err e))
Result-cases (ok a) = inl (a, refl)
Result-cases (err e) = inr (e, refl)

pub same_ok {ℓ} : {A : Type ℓ} {r : Result A} {a b : A} → r ≡ ok a → r ≡ ok b → a ≡ b
same_ok h k = cc

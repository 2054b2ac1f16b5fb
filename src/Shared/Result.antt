-- ===== src/Shared/Result.antt =====
-- Code that returns `error`: the storage errors that callers tell apart, and one for all others.
use mathlib.Core.Path.{◌≡◌, refl}
use mathlib.Core.Logic.{◌⊎◌, inl, inr}
use mathlib.Core.Bool.{Bool, true, false}

-- `storage.ErrJobNotFound`, `storage.ErrInvalidState`, the uniqueness failure of an INSERT, the
-- failure of a foreign key, and every error made by `errors.New` or `fmt.Errorf`; `no_fuel` stands
-- for a loop whose fuel ran out, and is no error of the program.
pub data Error : Type 0 where
  not_found invalid_state unique_violation foreign_key forbidden bad_request other no_fuel : Error

pub data Result {ℓ} (A : Type ℓ) : Type ℓ where
  err : Error → Result A
  ok : A → Result A

pub Result-cases {ℓ} :
    {A : Type ℓ} (r : Result A) → ((a : A) × (r ≡ ok a)) ⊎ ((e : Error) × (r ≡ err e))
Result-cases (ok a) = inl (a, refl)
Result-cases (err e) = inr (e, refl)

-- Go's early return of a call's error.
module _ {ℓ κ} {A : Type ℓ} {B : Type κ} where
  infixl 5 ◌>>=◌
  abbrev pub ◌>>=◌ : Result A → (A → Result B) → Result B
  err failure >>= next = err failure
  ok made >>= next = next made

  -- Where the whole returns a value, so did the call, and the rest from what the call made.
  pub >>=-eq-ok :
      (call : Result A) (next : A → Result B) {out : B}
      → (call >>= next) ≡ ok out
      → (made : A) × (call ≡ ok made) × (next made ≡ ok out)
  >>=-eq-ok (err failure) next h = cc
  >>=-eq-ok (ok made) next h = (made, refl, h)

module _ {ℓ} {B : Type ℓ} where
  infixl 5 ◌>>◌
  -- A check, then the rest.
  abbrev pub ◌>>◌ : Result (Unit {0}) → Result B → Result B
  err failure >> rest = err failure
  ok passed >> rest = rest

  pub >>-eq-ok :
      (check : Result (Unit {0})) (rest : Result B) {out : B}
      → (check >> rest) ≡ ok out
      → (check ≡ ok tt) × (rest ≡ ok out)
  >>-eq-ok (err failure) rest h = cc
  >>-eq-ok (ok passed) rest h = (refl, h)

  -- The value after a call: what it made, or what was there before where it failed.
  abbrev pub or_before : B → Result B → B
  or_before before (err failure) = before
  or_before before (ok made) = made

  pub ok-injective : {made made' : B} → ok made ≡ ok made' → made ≡ made'
  ok-injective h = cc

-- `if !b { return …, failure }`
abbrev pub guard : Bool → Error → Result (Unit {0})
guard false failure = err failure
guard true failure = ok tt

pub guard-eq-ok : (b : Bool) (failure : Error) → guard b failure ≡ ok tt → b ≡ true
guard-eq-ok false failure h = cc
guard-eq-ok true failure h = refl

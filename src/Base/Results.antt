-- ===== src/Base/Results.antt =====
-- Go's `error` results. A message of `errors.New` or `fmt.Errorf` is kept as its format text; `wrap`
-- is a `fmt.Errorf` with `%w`; a sentinel is a constructor.
use Prim.Native.String.{String}
use mathlib.Core.Path.{◌≡◌, refl}
use mathlib.Core.Bool.{Bool, true, false}

pub data Error : Type 0 where
  new : String → Error
  wrap : String → Error → Error
  bad_signature : Error
  rollback : Error
  not_in_scope : Error
  stale : Error

-- what a call returns: its value, or the error that stopped it
pub data Result {κ} (Value : Type κ) : Type κ where
  err : Error → Result Value
  ok : Value → Result Value

infixl 5 ◌>>◌
infixl 5 ◌>>=◌
abbrev pub ◌>>=◌ {κ μ} : {V : Type κ} {W : Type μ} → Result V → (V → Result W) → Result W
err why >>= next = err why
ok v >>= next = next v

abbrev pub ◌>>◌ {μ} : {W : Type μ} → Result (Unit {0}) → Result W → Result W
first >> later = first >>= λ _. later

-- `if !test { return e }`
abbrev pub require_that : Bool → Error → Result (Unit {0})
require_that true e = ok tt
require_that false e = err e

-- `if test { return e }`
abbrev pub fail_if : Bool → Error → Result (Unit {0})
fail_if true e = err e
fail_if false e = ok tt

-- `if err != nil { return fmt.Errorf(text, err) }`
abbrev pub wrapped {ℓ} : {A : Type ℓ} → String → Result A → Result A
wrapped text (ok a) = ok a
wrapped text (err e) = err (wrap text e)

-- `if err != nil { return other }`
abbrev pub or_fail {ℓ} : {A : Type ℓ} → Result A → Error → Result A
or_fail (ok a) e = ok a
or_fail (err _) e = err e

abbrev pub is_ok {ℓ} : {A : Type ℓ} → Result A → Bool
is_ok (ok a) = true
is_ok (err e) = false

-- When a call and what follows it succeed, the call returned a value that what follows took.
pub >>=-eq-ok {κ μ} :
    {V : Type κ} {W : Type μ} (call : Result V) (next : V → Result W) {w : W}
    → (call >>= next) ≡ ok w
    → (v : V) × (call ≡ ok v) × (next v ≡ ok w)
>>=-eq-ok (err why) next p = cc
>>=-eq-ok (ok v) next p = (v, refl, p)

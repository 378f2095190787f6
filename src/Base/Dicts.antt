-- ===== src/Base/Dicts.antt =====
-- Go's `map[string]V` as an association list: a write replaces the entry in place or adds one at
-- the end. Go visits a map in any order; where the program ranges over one, the result here does
-- not depend on the order.
use Prim.Native.Nat.{ℕ, ◌+◌}
use mathlib.Core.Path.{◌≡◌, refl, ap}
use mathlib.Core.Bool.{Bool, false, ◌||◌}
use mathlib.Core.Option.{Option, none, some}
use mathlib.Core.List.{List, [], ◌∷◌}
use native.Mathlib.Omega.{arith}
use esec_vault.Base.Tests.{if◌then◌else◌}
use esec_vault.Base.Bytes.{Text, text_eq, text_eq_iff}

abbrev pub Dict {ℓ} : Type ℓ → Type ℓ
Dict V = List (Text × V)

module _ {ℓ} {V : Type ℓ} where
  -- `m[key]`
  unfoldable pub lookup : Text → Dict V → Option V
  lookup key [] = none
  lookup key ((name, held) ∷ rest) = if text_eq name key then some held else lookup key rest

  -- `m[key] = new`
  unfoldable pub insert : Text → V → Dict V → Dict V
  insert key new [] = (key, new) ∷ []
  insert key new ((name, held) ∷ rest) =
      if text_eq name key then (name, new) ∷ rest else (name, held) ∷ insert key new rest

  -- `delete(m, key)`
  unfoldable pub delete : Text → Dict V → Dict V
  delete key [] = []
  delete key ((name, held) ∷ rest) =
      if text_eq name key then rest else (name, held) ∷ delete key rest

  -- `for k, v := range m { m[k] = f(k, v) }`
  unfoldable pub update_all : (Text → V → V) → Dict V → Dict V
  update_all f [] = []
  update_all f ((j, w) ∷ m) = (j, f j w) ∷ update_all f m

  -- `for _, v := range m { if p(v) { return … } }`
  unfoldable pub any_value : (V → Bool) → Dict V → Bool
  any_value p [] = false
  any_value p ((j, w) ∷ m) = p w || any_value p m

  -- how many values pass the test
  unfoldable pub count_values : (V → Bool) → Dict V → ℕ
  count_values p [] = 0
  count_values p ((j, w) ∷ m) = (if p w then 1 else 0) + count_values p m

  -- A read after a write sees what was written, and every other key as before.
  pub lookup-insert :
      (written read : Text) (new : V) (dict : Dict V)
      → lookup read (insert written new dict)
        ≡ (if text_eq written read then some new else lookup read dict)
  unfolding insert lookup
  lookup-insert written read new [] = refl
  lookup-insert written read new ((name, held) ∷ rest) = ground (
    arith,
    text_eq_iff name read,
    text_eq_iff name written,
    text_eq_iff written read,
    lookup-insert written read new rest,
  )

  abbrev pub map_some : (V → V) → Option V → Option V
  map_some f none = none
  map_some f (some v) = some (f v)

  pub lookup-update_all :
      (f : Text → V → V) (k : Text) (m : Dict V)
      → lookup k (update_all f m) ≡ map_some (f k) (lookup k m)
  unfolding lookup update_all
  lookup-update_all f k [] = refl
  lookup-update_all f k ((j, w) ∷ m) =
      ground (arith, text_eq_iff j k, ap (λ (i : Text). f i w), lookup-update_all f k m)

  -- the values that pass the test, in the order of the map
  unfoldable pub values_where : (V → Bool) → Dict V → List V
  values_where p [] = []
  values_where p ((j, w) ∷ m) = if p w then w ∷ values_where p m else values_where p m

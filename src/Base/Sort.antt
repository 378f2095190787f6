-- ===== src/Base/Sort.antt =====
-- Go's `sort.Slice`, `sort.Strings` and `sort.StringsAreSorted`, by insertion. Go leaves the order of
-- items that compare as equal open; here they keep the order of the list.
use mathlib.Core.Bool.{Bool, true, ◌&&◌, not}
use mathlib.Core.List.{List, [], ◌∷◌}
use esec_vault.Base.Tests.{if◌then◌else◌}

module _ {ℓ} {A : Type ℓ} (less : A → A → Bool) where
  unfoldable pub insert_sorted : A → List A → List A
  insert_sorted a [] = a ∷ []
  insert_sorted a (x ∷ xs) = if less x a then x ∷ insert_sorted a xs else a ∷ (x ∷ xs)

  unfoldable pub sort : List A → List A
  unfolding insert_sorted
  sort [] = []
  sort (x ∷ xs) = insert_sorted x (sort xs)

  -- no item is less than the one before it
  abbrev pub is_sorted : List A → Bool
  is_sorted [] = true
  is_sorted (x ∷ []) = true
  is_sorted (x ∷ (y ∷ ys)) = not (less y x) && is_sorted (y ∷ ys)

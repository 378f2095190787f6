-- ===== src/Base/Every.antt =====
-- What holds of every entry of a dictionary.
use Prim.Native.Nat.{ℕ, ◌+◌, ◌≤◌}
use mathlib.Core.Path.{◌≡◌, refl, sym, subst}
use mathlib.Core.Bool.{Bool, false}
use mathlib.Core.Option.{Option, none, some}
use mathlib.Core.List.{[], ◌∷◌}
use mathlib.Core.Logic.{inl, inr}
use native.Mathlib.Omega.{arith}
use esec_vault.Base.Tests.{if◌then◌else◌, Bool-cases}
use esec_vault.Base.Bytes.{Text, text_eq, text_eq_iff}
use esec_vault.Base.Dicts.{Dict, lookup, insert, update_all, any_value, count_values}

abbrev pub Entries {ℓ} : {V : Type ℓ} → (Text → V → Type 0) → Dict V → Type 0
Entries P [] = Unit {0}
Entries P ((k, v) ∷ m) = P k v × Entries P m

module _ {ℓ} {V : Type ℓ} where
  pub Entries-lookup :
      (P : Text → V → Type 0) (m : Dict V) (k : Text) (v : V)
      → Entries P m
      → lookup k m ≡ some v
      → P k v
  unfolding lookup
  Entries-lookup P [] k v h e = absurd (cc)
  Entries-lookup P ((j, w) ∷ m) k v h e = elim (Bool-cases (text_eq j k)) [
    | inl same ↦
        let at_w : w ≡ v = ground arith in
        subst (λ (i : Text). P i v) ((text_eq_iff j k).0 same) (subst (λ (u : V). P j u) at_w h.0)
    | inr other ↦ Entries-lookup P m k v h.1 (ground arith)
  ]

  pub Entries-map :
      (P Q : Text → V → Type 0) (m : Dict V)
      → ((k : Text) (v : V) → P k v → Q k v)
      → Entries P m
      → Entries Q m
  Entries-map P Q [] f h = tt
  Entries-map P Q ((k, v) ∷ m) f h = (f k v h.0, Entries-map P Q m f h.1)

  pub Entries-insert :
      (P : Text → V → Type 0) (k : Text) (v : V) (m : Dict V)
      → P k v
      → Entries P m
      → Entries P (insert k v m)
  unfolding insert
  Entries-insert P k v [] p h = (p, tt)
  Entries-insert P k v ((j, w) ∷ m) p h = elim (Bool-cases (text_eq j k)) [
    | inl same ↦ rw same (subst (λ (i : Text). P i v) (sym ((text_eq_iff j k).0 same)) p, h.1)
    | inr other ↦ rw other (h.0, Entries-insert P k v m p h.1)
  ]

  pub Entries-update_all :
      {P : Text → V → Type 0} (Q : Text → V → Type 0) (f : Text → V → V) (m : Dict V)
      → ((k : Text) (v : V) → P k v → Q k (f k v))
      → Entries P m
      → Entries Q (update_all f m)
  unfolding update_all
  Entries-update_all Q f [] g h = tt
  Entries-update_all Q f ((k, v) ∷ m) g h = (g k v h.0, Entries-update_all Q f m g h.1)

  -- a test that no value passes
  pub Entries-any_value :
      (p : V → Bool) (m : Dict V) → any_value p m ≡ false → Entries (λ k v. p v ≡ false) m
  unfolding any_value
  Entries-any_value p [] h = tt
  Entries-any_value p ((k, v) ∷ m) h = (ground arith, Entries-any_value p m (ground arith))

  -- a write adds at most one value that passes a test
  pub count_values-insert :
      (p : V → Bool) (k : Text) (v : V) (m : Dict V)
      → count_values p (insert k v m) ≤ count_values p m + (if p v then 1 else 0)
  unfolding count_values insert
  count_values-insert p k v [] = ground arith
  count_values-insert p k v ((j, w) ∷ m) = ground (arith, count_values-insert p k v m)

  pub count_values-update_all :
      (p : V → Bool) (f : Text → V → V) (m : Dict V)
      → ((k : Text) (v : V) → p v ≡ false → p (f k v) ≡ false)
      → count_values p (update_all f m) ≤ count_values p m
  unfolding count_values update_all
  count_values-update_all p f [] h = omega arith
  count_values-update_all p f ((j, w) ∷ m) h =
      ground (arith, h j w, count_values-update_all p f m h)

  abbrev pub passes : (V → Bool) → Option V → ℕ
  passes p none = 0
  passes p (some v) = if p v then 1 else 0

  pub passes-le-count_values :
      (p : V → Bool) (k : Text) (m : Dict V) → passes p (lookup k m) ≤ count_values p m
  unfolding lookup count_values
  passes-le-count_values p k [] = omega arith
  passes-le-count_values p k ((j, w) ∷ m) = ground (arith, passes-le-count_values p k m)

  -- a write trades the value that was there for the new one
  pub count_values-insert_trade :
      (p : V → Bool) (k : Text) (v : V) (m : Dict V)
      → count_values p (insert k v m) + passes p (lookup k m)
        ≡ count_values p m + (if p v then 1 else 0)
  unfolding lookup count_values insert
  count_values-insert_trade p k v [] = ground arith
  count_values-insert_trade p k v ((j, w) ∷ m) = ground (arith, count_values-insert_trade p k v m)

  pub count_values-update_all_same :
      (p : V → Bool) (f : Text → V → V) (m : Dict V)
      → ((k : Text) (v : V) → p (f k v) ≡ p v)
      → count_values p (update_all f m) ≡ count_values p m
  unfolding count_values update_all
  count_values-update_all_same p f [] h = refl
  count_values-update_all_same p f ((j, w) ∷ m) h =
      ground (arith, h j w, count_values-update_all_same p f m h)

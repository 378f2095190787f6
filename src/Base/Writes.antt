-- ===== src/Base/Writes.antt =====
-- Tests on the values of a dictionary after it is written.
use mathlib.Core.Path.{◌≡◌, refl}
use mathlib.Core.Bool.{Bool, true, false}
use mathlib.Core.Option.{none, some}
use mathlib.Core.List.{[], ◌∷◌}
use mathlib.Core.Logic.{inl, inr}
use native.Mathlib.Omega.{arith}
use esec_vault.Base.Tests.{Bool-cases}
use esec_vault.Base.Bytes.{Text, text_eq}
use esec_vault.Base.Dicts.{Dict, lookup, insert, delete, update_all, any_value}

module _ {ℓ} {V : Type ℓ} (p : V → Bool) where
  pub any_value-insert_new :
      (k : Text) (v : V) (m : Dict V) → p v ≡ true → any_value p (insert k v m) ≡ true
  unfolding any_value insert
  any_value-insert_new k v [] h = ground arith
  any_value-insert_new k v ((j, w) ∷ m) h = ground (arith, any_value-insert_new k v m h)

  -- a write keeps the test passed, where it keeps it passed for the value it replaces
  pub any_value-insert_keeps :
      (k : Text) (v : V) (m : Dict V)
      → any_value p m ≡ true
      → ((w : V) → lookup k m ≡ some w → p w ≡ true → p v ≡ true)
      → any_value p (insert k v m) ≡ true
  unfolding any_value insert lookup
  any_value-insert_keeps k v [] h keep = absurd (cc)
  any_value-insert_keeps k v ((j, w) ∷ m) h keep = elim (Bool-cases (text_eq j k)) [
    | inl hit ↦ ground (arith, hit, h, keep w)
    | inr apart ↦ elim (Bool-cases (p w)) [
      | inl passed ↦ ground (arith, apart, passed)
      | inr not_here ↦ ground (
        arith,
        apart,
        any_value-insert_keeps k v m (ground arith) (λ u found. keep u (ground arith)),
      )
    ]
  ]

  pub any_value-update_all :
      (f : Text → V → V) (m : Dict V)
      → ((k : Text) (v : V) → p (f k v) ≡ p v)
      → any_value p (update_all f m) ≡ any_value p m
  unfolding any_value update_all
  any_value-update_all f [] h = refl
  any_value-update_all f ((j, w) ∷ m) h = ground (arith, h j w, any_value-update_all f m h)

  pub any_value-delete :
      (k : Text) (v : V) (m : Dict V)
      → any_value p m ≡ true
      → lookup k m ≡ some v
      → p v ≡ false
      → any_value p (delete k m) ≡ true
  unfolding any_value lookup delete
  any_value-delete k v [] h found other = absurd (cc)
  any_value-delete k v ((j, w) ∷ m) h found other = ground (arith, any_value-delete k v m)

  pub lookup-delete-none :
      (k j : Text) (m : Dict V) → lookup k m ≡ none → lookup k (delete j m) ≡ none
  unfolding lookup delete
  lookup-delete-none k j [] h = refl
  lookup-delete-none k j ((i, w) ∷ m) h = ground (arith, lookup-delete-none k j m)

-- ===== src/Chain/Rotation.antt =====
-- What a new user key does to the devices, slots and delegates.
use esec_vault.Base.{
  ℕ, ◌+◌, ◌≡◌, ◌^◌, ◌%◌, ◌↔◌, refl, Option, some, none, List, [], ◌∷◌, Text, text_eq, text_eq_iff,
  ok, arith, any, is_some, ◌&&◌, >>=-eq-ok, Bool-cases, inl, inr, true, lookup, lookup-update_all,
  Dict, map_some, values_where, update_all, require_that, ◌==◌,
}
use mathlib.Core.Path.{subst}
use esec_vault.Envelope.{Envelope}
use esec_vault.Chain.Types.{Link, Time, UKeyRotateBody}
use esec_vault.Chain.State.{
  State, DeviceState, SlotState, DelegateState, KeyEpoch, active_device, usable_slot,
  active_delegates, if_active, if_usable,
}
use esec_vault.Chain.Valid.{parse_key32, parse_sign_key}
use esec_vault.Chain.External.{External}
use esec_vault.Chain.Delegates.{decode_body}
use esec_vault.Chain.Step.{all_kept, drop_device, drop_slot, drop_delegate, apply_rotate, wrap64}
use esec_vault.Chain.Change.{rotate_to}

-- Every device that a rotation keeps was active.
all_kept-active :
    (s : State) (id : Text) (seen keep : List Text)
    → all_kept s seen keep ≡ true
    → any (text_eq id) keep ≡ true
    → is_some (active_device s id) ≡ true
unfolding all_kept
all_kept-active s id seen [] kept listed = cc
all_kept-active s id seen (j ∷ keep) kept listed = elim (Bool-cases (text_eq id j)) [
  | inl same ↦ rw ((text_eq_iff id j).0 same) (ground arith)
  | inr other ↦ all_kept-active s id (j ∷ seen) keep (ground arith) (ground arith)
]

no_delegates :
    (n : ℕ) (m : Dict DelegateState)
    → values_where (λ d. d.active) (update_all (drop_delegate n) m) ≡ []
unfolding values_where update_all
no_delegates n [] = refl
no_delegates n ((k, d) ∷ m) = ground (arith, no_delegates n m)

-- What a state is after a rotation that keeps the devices `keep`.
pub record IsRotated (s t : State) (keep : List Text) : Type 0 where
  -- exactly the devices listed are active, and they were
  pub devices : (id : Text) → (is_some (active_device t id) ≡ true) ↔ (any (text_eq id) keep ≡ true)
  pub were_active :
      (id : Text) → is_some (active_device t id) ≡ true → is_some (active_device s id) ≡ true
  pub slots : (id : Text) (now : Time) → usable_slot t id now ≡ none
  pub delegates : active_delegates t ≡ []
  pub version : t.ukey_version ≡ (s.ukey_version + 1) % 2 ^ 64

rotated_active :
    (n : ℕ) (keep : List Text) (id : Text) (o : Option DeviceState)
    → is_some (if_active (map_some (drop_device n keep id) o))
      ≡ (is_some (if_active o) && any (text_eq id) keep)
rotated_active n keep id none = refl
rotated_active n keep id (some d) = ground arith

no_slot :
    (s : State) (now : Time) (id : Text) (o : Option SlotState)
    → if_usable s now (map_some (drop_slot id) o) ≡ none
no_slot s now id none = refl
no_slot s now id (some sl) = refl

module _ (s : State) (keep : List Text) (k : KeyEpoch) (kept : all_kept s [] keep ≡ true) where
  rotate_to-active :
      (id : Text)
      → is_some (active_device (rotate_to s k.seq keep k) id)
        ≡ (is_some (active_device s id) && any (text_eq id) keep)
  unfolding active_device
  rotate_to-active id =
      rw (lookup-update_all (drop_device k.seq keep) id s.devices)
        (rotated_active k.seq keep id (lookup id s.devices))

  rotate_to-IsRotated :
      k.version ≡ (s.ukey_version + 1) % 2 ^ 64 → IsRotated s (rotate_to s k.seq keep k) keep
  unfolding usable_slot active_delegates
  rotate_to-IsRotated version = record {
    devices = λ id. (
      λ h. ground (arith, rotate_to-active id),
      λ h. ground (arith, rotate_to-active id, all_kept-active s id [] keep kept h),
    );
    were_active = λ id h. ground (arith, rotate_to-active id);
    slots = λ id now.
        rw (lookup-update_all drop_slot id s.slots)
          (no_slot (rotate_to s k.seq keep k) now id (lookup id s.slots));
    delegates = no_delegates k.seq s.delegates;
    version = version;
  }

-- A rotation that is accepted names the devices it keeps, all of them active before; afterwards
-- exactly those are active, no agent slot can be used, no delegate is active, and the key version
-- is one higher.
pub apply_rotate-IsRotated :
    (x : External) (s : State) (e : Envelope) (l : Link) (t : State)
    → apply_rotate x s e l ≡ ok t
    → (b : UKeyRotateBody) × (decode_body x.ukey_rotate l ≡ ok b) × IsRotated s t b.devices
unfolding apply_rotate
apply_rotate-IsRotated x s e l t h =
    let (_, version, h₁) =
      >>=-eq-ok (require_that (l.ukey_version == wrap64 (s.ukey_version + 1)) _) _ h in
    let (b, decoded, h₂) = >>=-eq-ok (decode_body x.ukey_rotate l) _ h₁ in
    let (enc, enc_ok, h₃) = >>=-eq-ok (parse_key32 b.enc_pub) _ h₂ in
    let (sign, sign_ok, h₄) = >>=-eq-ok (parse_sign_key b.sign_pub) _ h₃ in
    let k : KeyEpoch = record {
      version = l.ukey_version;
      enc_pub = enc;
      sign_pub = sign;
      seq = l.seq;
      since = l.ctime;
    } in
    let made : rotate_to s l.seq b.devices k ≡ t = ground arith in
    (
      b,
      decoded,
      subst (λ v. IsRotated s v b.devices) made
          (rotate_to-IsRotated s b.devices k (ground arith) (ground arith)),
    )

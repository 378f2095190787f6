-- ===== src/Chain/Applied.antt =====
-- From `apply` of internal/chain/chain.go to the effects of links.
use esec_vault.Base.{
  any_value, [], ◌∷◌, sym, ap, ◌∙◌, inl, inr, Bool-cases, ◌≡◌, refl, true, false, Dict, lookup,
  insert, none, some, Text, text_eq, text_eq_iff, ok, >>=-eq-ok, arith, Bool,
}
use mathlib.Core.Path.{subst}
use esec_vault.Envelope.{Envelope}
use esec_vault.Chain.Types.{
  Link, LinkType, link_type, active, init, device_add, device_revoke, device_rename, ukey_rotate,
  agent_slot_add, agent_slot_remove, delegate_add, delegate_remove, security_key_add,
  security_key_remove,
}
use esec_vault.Chain.State.{
  State, DeviceState, SlotState, DelegateState, SecurityKeyState, active_device,
}
use esec_vault.Chain.Delegates as Delegates
use esec_vault.Chain.SecurityKeys as SecurityKeys
use esec_vault.Chain.Valid.{valid_device_name}
use esec_vault.Chain.External.{External}
use esec_vault.Chain.Delegates.{decode_body, apply_delegate_add, apply_delegate_remove}
use esec_vault.Chain.SecurityKeys.{apply_security_key_add, apply_security_key_remove}
use esec_vault.Chain.Devices.{
  apply_device_add, apply_device_revoke, apply_device_rename, apply_agent_slot_add,
  apply_agent_slot_remove,
}
use esec_vault.Chain.Step.{apply_rotate, apply_type, apply_current, apply_as, apply}
use esec_vault.Chain.Rotation.{apply_rotate-IsRotated}
use esec_vault.Chain.Devices.{device_or, slot_or, shares_key}
use esec_vault.Chain.Effect.{
  insert-Puts, ok-injective, Effect, device_added, device_revoked, device_renamed, slot_added,
  slot_removed, delegate_added, delegate_removed, key_added, key_removed, rotated,
}

any_value-lookup {ℓ} :
    {V : Type ℓ} (p : V → Bool) (m : Dict V) (k : Text) (v : V)
    → any_value p m ≡ false
    → lookup k m ≡ some v
    → p v ≡ false
unfolding any_value lookup
any_value-lookup p [] k v none_is at = absurd (ground (arith, at))
any_value-lookup p ((j, w) ∷ m) k v none_is at = elim (Bool-cases (text_eq j k)) [
  | inl here ↦
      let same : w ≡ v = ground (arith, at, here) in ap p (sym same) ∙ ground (arith, none_is)
  | inr other ↦ any_value-lookup p m k v (ground (arith, none_is)) (ground (arith, at, other))
]

module _ (x : External) (s : State) (l : Link) (t : State) where
  apply_device_add-Effect : apply_device_add x s l ≡ ok t → Effect x s l t device_add
  unfolding apply_device_add
  apply_device_add-Effect h =
      let (b, decoded, _) = >>=-eq-ok (decode_body x.device_add l) _ h in
      let d : DeviceState = record {
        device = b.device;
        status = active;
        method = b.method;
        approved_by = b.approved_by;
        slot = b.slot;
        added_seq = l.seq;
        revoked_seq = 0;
      } in
      let made : record s { devices = insert b.device.id d s.devices } ≡ t = ground arith in
      let unshared : any_value (shares_key b.device) s.devices ≡ false = ground arith in
      let fresh : lookup b.device.id s.devices ≡ none = ground arith in
      subst (λ (u : State). Effect x s l u device_add) made
        (device_added b d decoded fresh
          (λ id o at. any_value-lookup (shares_key b.device) s.devices id o unshared at) refl
          (refl, refl, refl) (insert-Puts b.device.id d s.devices) refl)

  apply_device_revoke-Effect : apply_device_revoke x s l ≡ ok t → Effect x s l t device_revoke
  unfolding apply_device_revoke active_device
  apply_device_revoke-Effect h =
      let (b, decoded, h₁) = >>=-eq-ok (decode_body x.device_revoke l) _ h in
      let (d, found, made) = >>=-eq-ok (device_or _ (active_device s b.device_id)) _ h₁ in
      let there : lookup b.device_id s.devices ≡ some d = ground (arith, found) in
      let live : d.status ≡ active = ground (arith, found) in
      subst (λ (u : State). Effect x s l u device_revoke) (ok-injective made)
        (device_revoked b d decoded there live (insert-Puts b.device_id _ s.devices) refl)

  apply_device_rename-Effect : apply_device_rename x s l ≡ ok t → Effect x s l t device_rename
  unfolding apply_device_rename active_device
  apply_device_rename-Effect h =
      let (b, decoded, h₁) = >>=-eq-ok (decode_body x.device_rename l) _ h in
      let (_, _, h₂) = >>=-eq-ok (valid_device_name b.name) _ h₁ in
      let (d, found, made) = >>=-eq-ok (device_or _ (active_device s b.device_id)) _ h₂ in
      let there : lookup b.device_id s.devices ≡ some d = ground (arith, found) in
      let live : d.status ≡ active = ground (arith, found) in
      subst (λ (u : State). Effect x s l u device_rename) (ok-injective made)
        (device_renamed b d decoded there live (insert-Puts b.device_id _ s.devices) refl)

  apply_agent_slot_add-Effect : apply_agent_slot_add x s l ≡ ok t → Effect x s l t agent_slot_add
  unfolding apply_agent_slot_add
  apply_agent_slot_add-Effect h =
      let (b, decoded, _) = >>=-eq-ok (decode_body x.agent_slot_add l) _ h in
      let sl : SlotState = record {
        slot_id = b.slot_id;
        ssh_key_fp = b.ssh_key_fp;
        expires = b.expires;
        ukey_version = s.ukey_version;
        active = true;
      } in
      let made : record s { slots = insert b.slot_id sl s.slots } ≡ t = ground arith in
      let fresh : lookup b.slot_id s.slots ≡ none = ground arith in
      subst (λ (u : State). Effect x s l u agent_slot_add) made
        (slot_added b sl decoded fresh (refl, refl, refl) (refl, refl)
          (insert-Puts b.slot_id sl s.slots) refl)

  apply_agent_slot_remove-Effect :
      apply_agent_slot_remove x s l ≡ ok t → Effect x s l t agent_slot_remove
  unfolding apply_agent_slot_remove
  apply_agent_slot_remove-Effect h =
      let (b, decoded, h₁) = >>=-eq-ok (decode_body x.agent_slot_remove l) _ h in
      let (sl, found, made) = >>=-eq-ok (slot_or (lookup b.slot_id s.slots)) _ h₁ in
      let there : lookup b.slot_id s.slots ≡ some sl = ground (arith, found) in
      let live : sl.active ≡ true = ground (arith, found) in
      subst (λ (u : State). Effect x s l u agent_slot_remove) (ok-injective made)
        (slot_removed b sl decoded there live (insert-Puts b.slot_id _ s.slots) refl)

  apply_delegate_add-Effect : apply_delegate_add x s l ≡ ok t → Effect x s l t delegate_add
  unfolding apply_delegate_add
  apply_delegate_add-Effect h =
      let (b, decoded, _) = >>=-eq-ok (decode_body x.delegate_add l) _ h in
      let d : DelegateState = record {
        delegate = b.delegate;
        active = true;
        added_seq = l.seq;
        removed_seq = 0;
      } in
      let made : record s { delegates = insert b.delegate.id d s.delegates } ≡ t = ground arith in
      let fresh : lookup b.delegate.id s.delegates ≡ none = ground arith in
      subst (λ (u : State). Effect x s l u delegate_add) made
        (delegate_added b d decoded fresh refl (refl, refl, refl)
          (insert-Puts b.delegate.id d s.delegates) refl)

  apply_delegate_remove-Effect : apply_delegate_remove x s l ≡ ok t → Effect x s l t delegate_remove
  unfolding apply_delegate_remove
  apply_delegate_remove-Effect h =
      let (b, decoded, h₁) = >>=-eq-ok (decode_body x.delegate_remove l) _ h in
      let (d, found, made) = >>=-eq-ok (Delegates.active_or x (lookup b.id s.delegates)) _ h₁ in
      let there : lookup b.id s.delegates ≡ some d = ground (arith, found) in
      let live : d.active ≡ true = ground (arith, found) in
      subst (λ (u : State). Effect x s l u delegate_remove) (ok-injective made)
        (delegate_removed b d decoded there live (insert-Puts b.id _ s.delegates) refl)

  apply_security_key_add-Effect :
      apply_security_key_add x s l ≡ ok t → Effect x s l t security_key_add
  unfolding apply_security_key_add
  apply_security_key_add-Effect h =
      let (b, decoded, _) = >>=-eq-ok (decode_body x.security_key_add l) _ h in
      let k : SecurityKeyState = record {
        key = b.key;
        active = true;
        added = l.ctime;
        added_seq = l.seq;
        removed_seq = 0;
      } in
      let made : record s { security_keys = insert b.key.id k s.security_keys } ≡ t =
        ground arith in
      let fresh : lookup b.key.id s.security_keys ≡ none = ground arith in
      subst (λ (u : State). Effect x s l u security_key_add) made
        (key_added b k decoded fresh refl (refl, refl, refl)
          (insert-Puts b.key.id k s.security_keys) refl)

  apply_security_key_remove-Effect :
      apply_security_key_remove x s l ≡ ok t → Effect x s l t security_key_remove
  unfolding apply_security_key_remove
  apply_security_key_remove-Effect h =
      let (b, decoded, h₁) = >>=-eq-ok (decode_body x.security_key_remove l) _ h in
      let (k, found, made) =
        >>=-eq-ok (SecurityKeys.active_or x (lookup b.id s.security_keys)) _ h₁ in
      let there : lookup b.id s.security_keys ≡ some k = ground (arith, found) in
      let live : k.active ≡ true = ground (arith, found) in
      subst (λ (u : State). Effect x s l u security_key_remove) (ok-injective made)
        (key_removed b k decoded there live (insert-Puts b.id _ s.security_keys) refl)

  apply_type-Effect : (k : LinkType) → apply_type x k s l ≡ ok t → Effect x s l t k
  unfolding apply_type
  apply_type-Effect device_add h = apply_device_add-Effect h
  apply_type-Effect device_revoke h = apply_device_revoke-Effect h
  apply_type-Effect device_rename h = apply_device_rename-Effect h
  apply_type-Effect agent_slot_add h = apply_agent_slot_add-Effect h
  apply_type-Effect agent_slot_remove h = apply_agent_slot_remove-Effect h
  apply_type-Effect delegate_add h = apply_delegate_add-Effect h
  apply_type-Effect delegate_remove h = apply_delegate_remove-Effect h
  apply_type-Effect security_key_add h = apply_security_key_add-Effect h
  apply_type-Effect security_key_remove h = apply_security_key_remove-Effect h
  apply_type-Effect _ h = absurd (cc)

  module _ (e : Envelope) where
    apply_rotate-Effect : apply_rotate x s e l ≡ ok t → Effect x s l t ukey_rotate
    unfolding apply_rotate
    apply_rotate-Effect h =
        let (b, decoded, done) = apply_rotate-IsRotated x s e l t h in
        rotated b decoded (ground arith) (ground arith)
          (
            ground (arith, text_eq_iff t.enc_pub s.enc_pub),
            ground (arith, text_eq_iff t.sign_pub s.sign_pub),
          )
          done (ground arith)

    apply_current-Effect : (k : LinkType) → apply_current x k s e l ≡ ok t → Effect x s l t k
    unfolding apply_current
    apply_current-Effect k h = apply_type-Effect k (ground arith)

    apply_as-Effect : (k : LinkType) → apply_as x k s e l ≡ ok t → Effect x s l t k
    unfolding apply_as
    apply_as-Effect init h = absurd (cc)
    apply_as-Effect ukey_rotate h = apply_rotate-Effect h
    apply_as-Effect k h = apply_current-Effect k h

    -- Every link after the first that is accepted does what its type and its body say: it sets one
    -- entry of the devices, agent slots, delegates or security keys, named by the body, to an active
    -- one that is new, or to one that was active and is now revoked, removed or renamed, and leaves
    -- all other entries and all else of the state as they are; or it rotates the user key to the keys
    -- of the body, both other than before, and keeps the security keys.
    pub apply-Effect : apply x s e l ≡ ok t → Effect x s l t (link_type l.typ)
    unfolding apply
    apply-Effect h = apply_as-Effect (link_type l.typ) h

-- ===== src/Chain/Change/Refines.antt =====
-- `apply` makes the changes of `Change`, and no others.
use esec_vault.Base.{
  ◌+◌, ◌≡◌, refl, true, insert, ok, >>=-eq-ok, arith, text_eq_iff, require_that, ◌==◌,
}
use mathlib.Core.Path.{subst}
use esec_vault.Envelope.{Envelope}
use esec_vault.Chain.Types.{
  Link, LinkType, link_type, active, init, device_add, device_revoke, device_rename, ukey_rotate,
  agent_slot_add, agent_slot_remove, delegate_add, delegate_remove, security_key_add,
  security_key_remove,
}
use esec_vault.Chain.State.{
  State, DeviceState, SlotState, DelegateState, SecurityKeyState, KeyEpoch, active_device,
}
use esec_vault.Chain.Valid.{parse_key32, parse_sign_key}
use esec_vault.Chain.External.{External}
use esec_vault.Chain.Delegates.{decode_body, apply_delegate_add, apply_delegate_remove}
use esec_vault.Chain.SecurityKeys.{apply_security_key_add, apply_security_key_remove}
use esec_vault.Chain.Devices.{
  apply_device_add, apply_device_revoke, apply_device_rename, apply_agent_slot_add,
  apply_agent_slot_remove,
}
use esec_vault.Chain.Step.{wrap64, apply_rotate, apply_type, apply_current, apply_as, apply}
use esec_vault.Chain.Change.{
  Change, rotate_to, device_added, device_revoked, device_renamed, slot_added, slot_removed,
  delegate_added, delegate_removed, key_added, key_removed, rotated,
}

module _ (x : External) (s : State) (l : Link) (t : State) where
  apply_device_add-Change : apply_device_add x s l ≡ ok t → Change s l.seq t
  unfolding apply_device_add
  apply_device_add-Change h =
      let (b, decoded, rest) = >>=-eq-ok (decode_body x.device_add l) _ h in
      let d : DeviceState = record {
        device = b.device;
        status = active;
        method = b.method;
        approved_by = b.approved_by;
        slot = b.slot;
        added_seq = l.seq;
        revoked_seq = 0;
      } in
      let made : record s { devices = insert b.device.id d s.devices } ≡ t = ground arith in
      subst (Change s l.seq) made (device_added d (ground arith) (ground arith) refl refl refl)

  apply_device_revoke-Change : apply_device_revoke x s l ≡ ok t → Change s l.seq t
  unfolding apply_device_revoke active_device
  apply_device_revoke-Change h = grind (arith, device_revoked)

  apply_device_rename-Change : apply_device_rename x s l ≡ ok t → Change s l.seq t
  unfolding apply_device_rename active_device
  apply_device_rename-Change h = grind (arith, device_renamed)

  apply_agent_slot_add-Change : apply_agent_slot_add x s l ≡ ok t → Change s l.seq t
  unfolding apply_agent_slot_add
  apply_agent_slot_add-Change h =
      let (b, decoded, rest) = >>=-eq-ok (decode_body x.agent_slot_add l) _ h in
      let sl : SlotState = record {
        slot_id = b.slot_id;
        ssh_key_fp = b.ssh_key_fp;
        expires = b.expires;
        ukey_version = s.ukey_version;
        active = true;
      } in
      let made : record s { slots = insert b.slot_id sl s.slots } ≡ t = ground arith in
      subst (Change s l.seq) made (slot_added sl (ground arith) refl refl)

  apply_agent_slot_remove-Change : apply_agent_slot_remove x s l ≡ ok t → Change s l.seq t
  unfolding apply_agent_slot_remove
  apply_agent_slot_remove-Change h = grind (arith, slot_removed)

  apply_delegate_add-Change : apply_delegate_add x s l ≡ ok t → Change s l.seq t
  unfolding apply_delegate_add
  apply_delegate_add-Change h =
      let (b, decoded, rest) = >>=-eq-ok (decode_body x.delegate_add l) _ h in
      let d : DelegateState = record {
        delegate = b.delegate;
        active = true;
        added_seq = l.seq;
        removed_seq = 0;
      } in
      let made : record s { delegates = insert b.delegate.id d s.delegates } ≡ t = ground arith in
      subst (Change s l.seq) made (delegate_added d (ground arith) (ground arith) refl refl refl)

  apply_delegate_remove-Change : apply_delegate_remove x s l ≡ ok t → Change s l.seq t
  unfolding apply_delegate_remove
  apply_delegate_remove-Change h = grind (arith, delegate_removed)

  apply_security_key_add-Change : apply_security_key_add x s l ≡ ok t → Change s l.seq t
  unfolding apply_security_key_add
  apply_security_key_add-Change h =
      let (b, decoded, rest) = >>=-eq-ok (decode_body x.security_key_add l) _ h in
      let k : SecurityKeyState = record {
        key = b.key;
        active = true;
        added = l.ctime;
        added_seq = l.seq;
        removed_seq = 0;
      } in
      let made : record s { security_keys = insert b.key.id k s.security_keys } ≡ t =
        ground arith in
      subst (Change s l.seq) made (key_added k (ground arith) (ground arith) refl refl refl)

  apply_security_key_remove-Change : apply_security_key_remove x s l ≡ ok t → Change s l.seq t
  unfolding apply_security_key_remove
  apply_security_key_remove-Change h = grind (arith, key_removed)

  apply_type-Change : (k : LinkType) → apply_type x k s l ≡ ok t → Change s l.seq t
  unfolding apply_type
  apply_type-Change device_add h = apply_device_add-Change h
  apply_type-Change device_revoke h = apply_device_revoke-Change h
  apply_type-Change device_rename h = apply_device_rename-Change h
  apply_type-Change agent_slot_add h = apply_agent_slot_add-Change h
  apply_type-Change agent_slot_remove h = apply_agent_slot_remove-Change h
  apply_type-Change delegate_add h = apply_delegate_add-Change h
  apply_type-Change delegate_remove h = apply_delegate_remove-Change h
  apply_type-Change security_key_add h = apply_security_key_add-Change h
  apply_type-Change security_key_remove h = apply_security_key_remove-Change h
  apply_type-Change _ h = cc

  module _ (e : Envelope) where
    apply_rotate-Change : apply_rotate x s e l ≡ ok t → Change s l.seq t
    unfolding apply_rotate
    apply_rotate-Change h =
        let (_, version, h₁) =
          >>=-eq-ok (require_that (l.ukey_version == wrap64 (s.ukey_version + 1)) _) _ h in
        let (b, decoded, h₂) = >>=-eq-ok (decode_body x.ukey_rotate l) _ h₁ in
        let (enc, enc_ok, h₃) = >>=-eq-ok (parse_key32 b.enc_pub) _ h₂ in
        let (sign, sign_ok, h₄) = >>=-eq-ok (parse_sign_key b.sign_pub) _ h₃ in
        let k : KeyEpoch = record {
          version = l.ukey_version;
          enc_pub = enc;
          sign_pub = sign;
          seq = l.seq;
          since = l.ctime;
        } in
        let made : rotate_to s l.seq b.devices k ≡ t = ground arith in
        subst (Change s l.seq) made (
          rotated b.devices k (ground arith) (ground arith)
            (ground (arith, text_eq_iff enc s.enc_pub))
            (ground (arith, text_eq_iff sign s.sign_pub)) (ground arith) refl)

    apply_current-Change : (k : LinkType) → apply_current x k s e l ≡ ok t → Change s l.seq t
    unfolding apply_current
    apply_current-Change k h = apply_type-Change k (ground arith)

    apply_as-Change : (k : LinkType) → apply_as x k s e l ≡ ok t → Change s l.seq t
    unfolding apply_as
    apply_as-Change init h = cc
    apply_as-Change ukey_rotate h = apply_rotate-Change h
    apply_as-Change device_add h = apply_current-Change device_add h
    apply_as-Change k h = apply_current-Change k h

    -- Every link that `apply` accepts makes one of the changes of `Change`, at the link's position.
    pub apply-Change : apply x s e l ≡ ok t → Change s l.seq t
    unfolding apply
    apply-Change h = apply_as-Change (link_type l.typ) h

-- ===== src/Chain/Signed.antt =====
-- Who must have signed a link.
use esec_vault.Base.{
  ◌+◌, ◌<◌, ◌≡◌, ◌^◌, true, some, [], ◌∷◌, ok, arith, >>=-eq-ok, ◌==◌, require_that, fail_if, ◌||◌,
  not, wrapped, new,
}
use esec_vault.Envelope.{Envelope, verified_by}
use esec_vault.Envelope.Signing.{require_iff}
use esec_vault.Chain.Types.{Link, LinkType, link_type, init, device_add, ukey_rotate, InitBody}
use esec_vault.Chain.State.{State}
use esec_vault.Chain.Valid.{parse_key32, parse_sign_key, kind_link}
use esec_vault.Chain.External.{External}
use esec_vault.Chain.Delegates.{decode_body, apply_delegate_add, apply_delegate_remove}
use esec_vault.Chain.SecurityKeys.{apply_security_key_add, apply_security_key_remove}
use esec_vault.Chain.Devices.{
  apply_device_add, apply_device_revoke, apply_device_rename, apply_agent_slot_add,
  apply_agent_slot_remove,
}
use esec_vault.Chain.Step.{
  is_init, apply_init, apply_rotate, apply_type, apply_current, apply_as, apply, root_statement,
  wrap64, step,
}
use esec_vault.Chain.Frame.{step-Stepped}
use esec_vault.Chain.WellFormed.{check_link-seq}

-- An envelope that the user keys before and after it both signed.
pub record IsSigned (x : External) (s : State) (e : Envelope) (t : State) : Type 0 where
  pub of_kind : e.kind ≡ kind_link
  pub by_old : verified_by x.crypto e s.sign_pub ≡ true
  pub by_new : verified_by x.crypto e t.sign_pub ≡ true

module _ (x : External) (s : State) (e : Envelope) (l : Link) (t : State) where
  apply_type-sign_pub : (k : LinkType) → apply_type x k s l ≡ ok t → t.sign_pub ≡ s.sign_pub
  unfolding apply_type apply_device_add apply_device_revoke apply_device_rename apply_agent_slot_add
      apply_agent_slot_remove apply_delegate_add apply_delegate_remove apply_security_key_add
      apply_security_key_remove
  apply_type-sign_pub device_add h = ground arith
  apply_type-sign_pub k h = ground arith

  apply_current-IsSigned : (k : LinkType) → apply_current x k s e l ≡ ok t → IsSigned x s e t
  unfolding apply_current
  apply_current-IsSigned k h =
      let accepted = (require_iff x.crypto e kind_link (s.sign_pub ∷ [])).0 (ground arith) in
      let same = apply_type-sign_pub k (ground arith) in
      let old : verified_by x.crypto e s.sign_pub ≡ true = ground (arith, accepted.all_signed) in
      record { of_kind = accepted.of_kind; by_old = old; by_new = rw same old }

  apply_rotate-IsSigned : apply_rotate x s e l ≡ ok t → IsSigned x s e t
  unfolding apply_rotate
  apply_rotate-IsSigned h =
      let (_, version, h₁) =
        >>=-eq-ok (require_that (l.ukey_version == wrap64 (s.ukey_version + 1)) _) _ h in
      let (b, decoded, h₂) = >>=-eq-ok (decode_body x.ukey_rotate l) _ h₁ in
      let (enc, enc_ok, h₃) = >>=-eq-ok (parse_key32 b.enc_pub) _ h₂ in
      let (sign, sign_ok, h₄) = >>=-eq-ok (parse_sign_key b.sign_pub) _ h₃ in
      let accepted =
        (require_iff x.crypto e kind_link (s.sign_pub ∷ (sign ∷ []))).0 (ground arith) in
      let same : t.sign_pub ≡ sign = ground arith in
      record {
        of_kind = accepted.of_kind;
        by_old = ground (arith, accepted.all_signed);
        by_new = rw same (ground (arith, accepted.all_signed));
      }

  apply_as-IsSigned : (k : LinkType) → apply_as x k s e l ≡ ok t → IsSigned x s e t
  unfolding apply_as
  apply_as-IsSigned init h = absurd (cc)
  apply_as-IsSigned ukey_rotate h = apply_rotate-IsSigned h
  apply_as-IsSigned device_add h = apply_current-IsSigned device_add h
  apply_as-IsSigned k h = apply_current-IsSigned k h

  apply-IsSigned : apply x s e l ≡ ok t → IsSigned x s e t
  unfolding apply
  apply-IsSigned h = apply_as-IsSigned (link_type l.typ) h

-- After the first link, every link that is accepted was signed by the user key that was current
-- before it and by the user key that is current after it (they differ only at a rotation).
pub step-IsSigned :
    (x : External) (s : State) (e : Envelope) (u : State)
    → 0 < s.seq
    → s.seq + 1 < 2 ^ 64
    → step x s (some e) ≡ ok u
    → IsSigned x s e u
step-IsSigned x s e u pos small h =
    let st = step-Stepped x s e u h in
    let at = check_link-seq x s st.link st.checked small in
    let signed = apply-IsSigned x s e st.link st.applied (ground (arith, st.run, at)) in
    rw st.result
      (record { of_kind = signed.of_kind; by_old = signed.by_old; by_new = signed.by_new })

-- What roots an account: its first key signed the link, and the recovery phrase's signing key vouched for the keys
-- and the master key.
pub record IsRooted (x : External) (e : Envelope) (u : State) : Type 0 where
  pub of_kind : e.kind ≡ kind_link
  pub by_first : verified_by x.crypto e u.sign_pub ≡ true
  pub first_version : u.ukey_version ≡ 1
  pub body : InitBody
  pub vouched :
      x.crypto.verify u.master_sign_pub
        (root_statement u.enc_pub u.sign_pub u.master_pub)
        body.root_sig
      ≡ true

apply_init-IsRooted :
    (x : External) (s : State) (e : Envelope) (l : Link) (t : State)
    → apply_init x s e l ≡ ok t
    → IsRooted x e t
unfolding apply_init
apply_init-IsRooted x s e l t h =
    let (_, typed, h₁) =
      >>=-eq-ok
        (fail_if (not (is_init (link_type l.typ)) || not (l.ukey_version == 1))
          (new "chain must start with an init link for key version 1"))
        _ h in
    let (b, decoded, h₂) = >>=-eq-ok (decode_body x.init l) _ h₁ in
    let (enc, enc_ok, h₃) = >>=-eq-ok (parse_key32 b.enc_pub) _ h₂ in
    let (sign, sign_ok, h₄) = >>=-eq-ok (parse_sign_key b.sign_pub) _ h₃ in
    let (master, master_ok, h₅) = >>=-eq-ok (parse_key32 b.master_pub) _ h₄ in
    let (master_sign, ms_ok, h₆) =
      >>=-eq-ok (wrapped "master signing key: %w" (parse_sign_key b.master_sign_pub)) _ h₅ in
    let accepted = (require_iff x.crypto e kind_link (sign ∷ [])).0 (ground arith) in
    let passed : x.crypto.verify master_sign (root_statement enc sign master) b.root_sig ≡ true =
      ground arith in
    let same_sign : t.sign_pub ≡ sign = ground arith in
    let same_enc : t.enc_pub ≡ enc = ground arith in
    let same_master : t.master_pub ≡ master = ground arith in
    let same_ms : t.master_sign_pub ≡ master_sign = ground arith in
    record {
      of_kind = accepted.of_kind;
      by_first = rw same_sign (ground (arith, accepted.all_signed));
      first_version = ground arith;
      body = b;
      vouched = cc (passed, same_ms, same_enc, same_sign, same_master);
    }

-- The first link of a chain was signed by the first user key, and the recovery phrase's signing key
-- vouched for that key, its encryption key and the master key.
pub step-IsRooted :
    (x : External) (s : State) (e : Envelope) (u : State)
    → s.seq ≡ 0
    → step x s (some e) ≡ ok u
    → IsRooted x e u
step-IsRooted x s e u zero_seq h =
    let st = step-Stepped x s e u h in
    let at = check_link-seq x s st.link st.checked (omega arith) in
    let rooted = apply_init-IsRooted x s e st.link st.applied (ground (arith, st.run, at)) in
    rw st.result (record {
      of_kind = rooted.of_kind;
      by_first = rooted.by_first;
      first_version = rooted.first_version;
      body = rooted.body;
      vouched = rooted.vouched;
    })

-- ===== src/Tests/Chain.antt =====
-- The device chain of `Toy`, and the theorems about device chains at it.
use esec_vault.Base.{
  ◌≤◌, ◌≡◌, ◌⊎◌, refl, ok, err, new, Option, some, none, List, [], ◌∷◌, codes, arith, take, lookup,
  wrap, rollback,
}
use esec_vault.Base.{
  text_eq, cut_prefix, matches, starts_class, insert, update_all, any_value, count_values,
}
use esec_vault.Envelope.{
  Envelope, check, require, require_keys, verified_by, signed_by, hash, hex_encode, message, decode,
  decode_strict, only_space, add_signatures, add_signature, kind_pattern,
}
use esec_vault.Envelope.Digest.{Collision}
use esec_vault.Chain.Types.{link_type, method, UKeyRotateBody}
use esec_vault.Chain.State.{
  KeyEpoch, head, active_device, usable_slot, epoch_at, delegate_at, check_pin,
}
use esec_vault.Chain.Valid.{
  valid_user, valid_device_id, valid_device_name, valid_platform, hex_decode, parse_key32,
  parse_sign_key, validate_device, same_device, verify_proof, split_at,
}
use esec_vault.Chain.Delegates.{
  decode_body, delegate_id_pattern, validate_delegate, validate_server, delegate_kind,
  apply_delegate_add,
}
use esec_vault.Chain.Devices.{apply_device_add, apply_device_rename, check_method}
use esec_vault.Chain.Step.{
  root_statement, all_kept, apply_init, apply_rotate, apply_type, apply_current, apply_as, apply,
  check_link, read_link, step_link, step, steps, verify,
}
use esec_vault.Chain.Effect.{Effect}
use esec_vault.Chain.Applied.{apply-Effect}
use esec_vault.Chain.Invariant.{IsWellFormed}
use esec_vault.Chain.WellFormed.{verify-IsWellFormed}
use esec_vault.Chain.Epochs.{epoch_at-steps}
use esec_vault.Chain.DelegateHistory.{delegate_at-steps, the_delegate, the_active}
use esec_vault.Chain.Retired.{KeepsRetired, steps-KeepsRetired}
use esec_vault.Chain.Rotation.{IsRotated, apply_rotate-IsRotated}
use esec_vault.Chain.Signed.{IsSigned, step-IsSigned, IsRooted, step-IsRooted}
use esec_vault.Chain.Pin.{check_pin-extends}
use esec_vault.Chain.Names.{sanitize_name-valid}
use esec_vault.Chain.Valid.{sanitize_name}
use esec_vault.Tests.Toy.{
  toy, toy_crypto, user, all_links, state, server, envelope₄, envelope₅, link₄, or_start, envelope₁,
}

-- what a run of the chain's code looks through
runs : Unit {0}
unfolding check require require_keys verified_by signed_by hash hex_encode message decode
    decode_strict only_space add_signatures add_signature kind_pattern text_eq cut_prefix matches
    starts_class lookup insert update_all any_value count_values link_type method head active_device
    usable_slot valid_user valid_device_id valid_device_name valid_platform hex_decode parse_key32
    parse_sign_key validate_device same_device verify_proof split_at decode_body delegate_id_pattern
    validate_delegate validate_server delegate_kind apply_delegate_add apply_device_add
    apply_device_rename check_method root_statement all_kept apply_init apply_rotate apply_type
    apply_current apply_as apply check_link read_link step_link step steps verify
runs = tt

verified₃ : verify toy user (take 3 all_links) ≡ ok (state 3)
unfolding runs
verified₃ = refl

verified₄ : verify toy user (take 4 all_links) ≡ ok (state 4)
unfolding runs
verified₄ = refl

verified₅ : verify toy user all_links ≡ ok (state 5)
unfolding runs
verified₅ = refl

wf₃ : IsWellFormed (state 3)
wf₃ = (verify-IsWellFormed toy user (take 3 all_links) (state 3) verified₃).0

seq₃ : (state 3).seq ≡ 3
seq₃ = (verify-IsWellFormed toy user (take 3 all_links) (state 3) verified₃).1

seq₄ : (state 4).seq ≡ 4
seq₄ = (verify-IsWellFormed toy user (take 4 all_links) (state 4) verified₄).1

wf₄ : IsWellFormed (state 4)
wf₄ = (verify-IsWellFormed toy user (take 4 all_links) (state 4) verified₄).0

steps₄ : steps toy (state 3) (some envelope₄ ∷ some envelope₅ ∷ []) ≡ ok (state 5)
unfolding runs
steps₄ = refl

steps₅ : steps toy (state 4) (some envelope₅ ∷ []) ≡ ok (state 5)
unfolding runs
steps₅ = refl

step₄ : step toy (state 3) (some envelope₄) ≡ ok (state 4)
unfolding runs
step₄ = refl

-- A link out of order, a replayed link, and a chain older than a pin.
refused :
    (step toy (state 3) (some envelope₅) ≡ err (new "link is out of sequence"))
    × (step toy (state 4) (some envelope₄) ≡ err (new "link is out of sequence"))
    × (step toy (state 4) none ≡ err (new "missing envelope"))
    × (check_pin (state 3) 4 (head (state 4))
        ≡ err (wrap "%w: server chain has %d links, this device has seen %d" rollback))
unfolding runs check_pin
refused = (refl, refl, refl, refl)

sanitized : sanitize_name (codes " my.host!") ≡ codes "my.host-"
unfolding sanitize_name
sanitized = refl

verify-IsWellFormed_example : IsWellFormed (state 5) × ((state 5).seq ≡ 5) × (5 ≤ 10000)
verify-IsWellFormed_example = verify-IsWellFormed toy user all_links (state 5) verified₅

epoch_at-steps_example :
    (k : KeyEpoch) × (epoch_at (state 5) (state 3).seq ≡ some k)
    × (k.enc_pub ≡ (state 3).enc_pub)
    × (k.sign_pub ≡ (state 3).sign_pub)
    × (k.version ≡ (state 3).ukey_version)
epoch_at-steps_example =
    epoch_at-steps toy (state 3) (some envelope₄ ∷ some envelope₅ ∷ []) (state 5) wf₃
      (omega (arith, seq₃)) (omega (arith, seq₃)) steps₄

delegate_at-steps_example :
    the_delegate (delegate_at (state 5) (codes "dl_server01") (state 3).seq)
    ≡ the_active (lookup (codes "dl_server01") (state 3).delegates)
delegate_at-steps_example =
    delegate_at-steps toy (state 3) (some envelope₄ ∷ some envelope₅ ∷ []) (state 5)
      (codes "dl_server01") wf₃ (omega (arith, seq₃)) (omega (arith, seq₃)) steps₄

-- the delegate was active at position 3, and the rotation at 4 dropped it
delegate_dropped :
    (the_delegate (delegate_at (state 5) (codes "dl_server01") 3) ≡ some server)
    × (the_delegate (delegate_at (state 5) (codes "dl_server01") 4) ≡ none)
unfolding runs delegate_at
delegate_dropped = (refl, refl)

steps-KeepsRetired_example : KeepsRetired (state 4) (state 5)
steps-KeepsRetired_example =
    steps-KeepsRetired toy (state 4) (some envelope₅ ∷ []) (state 5) wf₄ (omega (arith, seq₄))
      (omega (arith, seq₄)) steps₅

rotated₄ :
    apply_rotate toy (state 3) envelope₄ link₄
    ≡ ok (or_start (apply_rotate toy (state 3) envelope₄ link₄))
unfolding runs
rotated₄ = refl

apply_rotate-IsRotated_example :
    (b : UKeyRotateBody) × (decode_body toy.ukey_rotate link₄ ≡ ok b)
    × IsRotated (state 3) (or_start (apply_rotate toy (state 3) envelope₄ link₄)) b.devices
apply_rotate-IsRotated_example =
    apply_rotate-IsRotated toy (state 3) envelope₄ link₄
      (or_start (apply_rotate toy (state 3) envelope₄ link₄)) rotated₄

step-IsSigned_example : IsSigned toy (state 3) envelope₄ (state 4)
step-IsSigned_example =
    step-IsSigned toy (state 3) envelope₄ (state 4) (omega (arith, seq₃)) (omega (arith, seq₃))
      step₄

step₁ : step toy (state 0) (some envelope₁) ≡ ok (state 1)
unfolding runs
step₁ = refl

seq₀ : (state 0).seq ≡ 0
unfolding runs
seq₀ = refl

step-IsRooted_example : IsRooted toy envelope₁ (state 1)
step-IsRooted_example = step-IsRooted toy (state 0) envelope₁ (state 1) seq₀ step₁

pinned₄ : check_pin (state 5) (state 4).seq (head (state 4)) ≡ ok tt
unfolding runs check_pin
pinned₄ = refl

check_pin-extends_example :
    Collision toy_crypto ⊎ ((gs : List (Option Envelope)) × (steps toy (state 4) gs ≡ ok (state 5)))
check_pin-extends_example =
    check_pin-extends toy user (take 4 all_links) all_links (state 4) (state 5) verified₄ verified₅
      pinned₄

applied₄ : apply toy (state 3) envelope₄ link₄ ≡ ok (or_start (apply toy (state 3) envelope₄ link₄))
unfolding runs
applied₄ = refl

apply-Effect_example :
    Effect toy
      (state 3)
      link₄
      (or_start (apply toy (state 3) envelope₄ link₄))
      (link_type link₄.typ)
apply-Effect_example =
    apply-Effect toy (state 3) link₄ (or_start (apply toy (state 3) envelope₄ link₄)) envelope₄
      applied₄

sanitize_name-valid_example : valid_device_name (sanitize_name (codes " my.host!")) ≡ ok tt
sanitize_name-valid_example = sanitize_name-valid (codes " my.host!")

-- ===== src/Tests/Group.antt =====
-- The group chain of `Fleet`, and the theorems about group chains at it.
use esec_vault.Base.{
  is_ok, ◌≤◌, ◌<◌, ◌≡◌, refl, ok, err, new, wrap, stale, some, [], ◌∷◌, codes, lookup, true, false,
  take, length,
}
use esec_vault.Base.{
  text_eq, text_lt, cut_prefix, matches, starts_class, has_suffix, contains, insert, any_value,
  values_where, runes, runes_after, sort, insert_sorted,
}
use esec_vault.Envelope.{
  check, require, require_keys, verified_by, signed_by, hash, hex_encode, message, decode,
  decode_strict, only_space, add_signatures, add_signature, kind_pattern,
}
use esec_vault.Chain.State as Account
use esec_vault.Chain.Valid.{valid_user, hex_decode, parse_key32, parse_sign_key, valid_device_name}
use esec_vault.Chain.Delegates.{delegate_kind}
use esec_vault.Team.Valid.{
  valid_project, valid_group, valid_login, login_pattern, root_pattern, valid_person,
  reason_pattern, valid_reason,
}
use esec_vault.Team.Delegate.{recorded_account, delegate_signer, verify_delegate}
use esec_vault.Team.Signer as TeamSigner
use esec_vault.Group.Types.{Link, link_type, key_rotate}
use esec_vault.Group.State.{
  State, CredState, head, admin, member, holds_key, cred, active_people, active_admins,
  active_creds, expired,
}
use esec_vault.Group.People.{person_root, check_seq, user_key, delegate_unless}
use esec_vault.Group.Valid.{cred_pattern, valid_cred_id, same_oidc, check_own_keys, check_cred_keys}
use esec_vault.Group.Creds.{
  decode_body, set_key, add_cred, apply_machine_add, apply_token_add, apply_remove,
  apply_key_rotate,
}
use esec_vault.Group.Persons.{apply_init}
use esec_vault.Group.Step.{
  check_link, check_size, token_key, peek_link, first_person, creator, person_key, signer_key,
  scope_of, group_scope, web_add, check_own_key, check_signer, apply_type, apply, step_link, step,
  steps, verify,
}
use esec_vault.Group.Grants.{
  admin_key, key_grant_signer, check_recipient, check_current, peek_key_grant, check_key_grant,
  open_payload, open_key_grant,
}
use esec_vault.Group.Admins.{group_verify-HasAdmin}
use esec_vault.Group.Counted.{IsBounded, group_verify-IsBounded}
use esec_vault.Group.Keys.{IsSeparate, group_verify-IsSeparate}
use esec_vault.Group.Rekey.{is_group_key}
use esec_vault.Group.Reuse.{IsRotated, steps-IsRotated}
use esec_vault.Group.Exposed.{IsNoted, group_step-IsNoted}
use esec_vault.Group.Removal.{reads}
use esec_vault.Group.Signed.{Vouched, group_step-Vouched}
use esec_vault.Group.Limits.{
  IsActiveToken, IsEnrolled, IsLimited, token_step-IsEnrolled, group_delegate-IsLimited,
}
use esec_vault.Group.Granted.{
  IsGranted, IsOpened, check_key_grant-IsGranted, open_key_grant-key, rotated-stale,
}
use esec_vault.Tests.Toy.{bytes}
use esec_vault.Tests.Project.{chains}
use esec_vault.Tests.Fleet.{
  fleet, or_start, group, all_links, state, envelope₁, envelope₂, envelope₃, envelope₄, envelope₅,
  link₃, link₄, link₅, opening, accounts, grant, grant_envelope, host,
}

-- what a run of the chain's code looks through
unfoldable pub runs : Unit {0}
unfolding check require require_keys verified_by signed_by hash hex_encode message decode
    decode_strict only_space add_signatures add_signature kind_pattern text_eq text_lt cut_prefix
    matches starts_class has_suffix contains lookup insert any_value values_where runes runes_after
    sort insert_sorted Account.head Account.root Account.epoch_at Account.epoch_before Account.epoch
    Account.delegate_at Account.delegate_allows valid_user hex_decode parse_key32 parse_sign_key
    valid_device_name delegate_kind valid_project valid_group valid_login login_pattern root_pattern
    valid_person reason_pattern valid_reason recorded_account delegate_signer verify_delegate
    TeamSigner.signer_key link_type head admin member holds_key cred active_people active_admins
    active_creds expired person_root check_seq user_key delegate_unless cred_pattern valid_cred_id
    same_oidc check_own_keys check_cred_keys decode_body set_key add_cred apply_machine_add
    apply_token_add apply_remove apply_key_rotate apply_init check_link check_size token_key
    peek_link first_person creator person_key signer_key scope_of group_scope web_add check_own_key
    check_signer apply_type apply step_link step steps verify admin_key key_grant_signer
    check_recipient check_current peek_key_grant check_key_grant open_payload open_key_grant
runs = tt

verified₅ : verify fleet chains group all_links ≡ ok (state 5)
unfolding runs
verified₅ = refl

size₅ : (state 5).seq ≡ 5
unfolding runs
size₅ = refl

pub verified₃ : verify fleet chains group (take 3 all_links) ≡ ok (state 3)
unfolding runs
verified₃ = refl

step₃ : step fleet chains (state 2) (some envelope₃) ≡ ok (state 3)
unfolding runs
step₃ = refl

pub step₄ : step fleet chains (state 3) (some envelope₄) ≡ ok (state 4)
unfolding runs
step₄ = refl

step₅ : step fleet chains (state 4) (some envelope₅) ≡ ok (state 5)
unfolding runs
step₅ = refl

steps₄ : steps fleet chains (state 3) (some envelope₄ ∷ []) ≡ ok (state 4)
unfolding runs
steps₄ = refl

read₃ : peek_link fleet envelope₃ ≡ ok link₃
unfolding runs
read₃ = refl

read₄ : peek_link fleet envelope₄ ≡ ok link₄
unfolding runs
read₄ = refl

read₅ : peek_link fleet envelope₅ ≡ ok link₅
unfolding runs
read₅ = refl

-- A link signed by the server where a token must sign, and a link that leaves one out.
refused : step fleet chains (state 2) (some envelope₄) ≡ err (new "link is out of sequence")
unfolding runs
refused = refl

granted₃ : check_key_grant fleet opening grant_envelope (state 3) accounts ≡ ok grant
unfolding runs
granted₃ = refl

-- The machine that was taken out gets the key no more.
refused₄ :
    check_key_grant fleet opening grant_envelope (state 4) accounts
    ≡ err (wrap "%w: %s is no longer in the group" stale)
unfolding runs
refused₄ = refl

group_verify-HasAdmin_example : 0 < length (active_admins (state 5))
group_verify-HasAdmin_example =
    group_verify-HasAdmin fleet chains group (some envelope₁)
      (some envelope₂ ∷ (some envelope₃ ∷ (some envelope₄ ∷ (some envelope₅ ∷ [])))) (state 5)
      verified₅

group_verify-IsBounded_example :
    IsBounded (state 5) × ((state 5).seq ≡ length all_links) × (length all_links ≤ 10000)
group_verify-IsBounded_example =
    group_verify-IsBounded fleet chains group all_links (state 5) verified₅

group_verify-IsSeparate_example : IsSeparate (state 5)
group_verify-IsSeparate_example =
    group_verify-IsSeparate fleet chains group all_links (state 5) verified₅

known₃ : is_group_key (state 3) (hex_encode (bytes 32 31)) ≡ true
unfolding runs
known₃ = refl

some_key₃ : text_eq (hex_encode (bytes 32 31)) [] ≡ false
unfolding runs
some_key₃ = refl

rotates₅ : link_type link₅.typ ≡ key_rotate
unfolding runs
rotates₅ = refl

steps-IsRotated_example :
    IsRotated (state 4) (state 5)
    × (text_eq (state 5).key.enc_pub (hex_encode (bytes 32 31)) ≡ false)
steps-IsRotated_example =
    steps-IsRotated fleet chains (state 3) (state 4) (state 5) (some envelope₄ ∷ []) envelope₅ link₅
      (hex_encode (bytes 32 31)) known₃ some_key₃ steps₄ step₅ read₅ rotates₅

group_step-IsNoted_example : IsNoted (state 3) (state 4) (codes "m_bbbbbbbb")
group_step-IsNoted_example =
    group_step-IsNoted fleet chains group (take 3 all_links) (state 3) envelope₄ (state 4)
      (codes "m_bbbbbbbb") verified₃ step₄

-- the machine loses the key in that step
pub lost₄ :
    (reads (state 3) (codes "m_bbbbbbbb") ≡ true) × (reads (state 4) (codes "m_bbbbbbbb") ≡ false)
unfolding runs
lost₄ = (refl, refl)

group_step-Vouched_example :
    (l : Link) × (peek_link fleet envelope₄ ≡ ok l) × Vouched fleet chains (state 3) envelope₄ l
group_step-Vouched_example = group_step-Vouched fleet chains (state 3) envelope₄ (state 4) step₄

of_cred₃ : is_ok (valid_cred_id link₃.signer) ≡ true
unfolding runs
of_cred₃ = refl

token_step-IsEnrolled_example :
    (t : CredState) × IsActiveToken (state 2) link₃ t × IsEnrolled (state 2) (state 3) link₃ t
token_step-IsEnrolled_example =
    token_step-IsEnrolled fleet chains (state 2) envelope₃ (state 3) link₃ step₃ read₃ refl of_cred₃

named₄ : text_eq link₄.signer_delegate [] ≡ false
unfolding runs
named₄ = refl

group_delegate-IsLimited_example : IsLimited (state 3) (state 4)
group_delegate-IsLimited_example =
    group_delegate-IsLimited fleet chains (state 3) envelope₄ (state 4) link₄ step₄ read₄ named₄

check_key_grant-IsGranted_example : IsGranted fleet grant_envelope (state 3) accounts grant
check_key_grant-IsGranted_example =
    check_key_grant-IsGranted fleet opening accounts grant_envelope (state 3) grant granted₃

opened₃ : open_key_grant fleet opening grant_envelope (state 3) accounts host [] ≡ ok (bytes 32 31)
unfolding runs
opened₃ = refl

open_key_grant-key_example :
    IsOpened fleet opening grant_envelope (state 3) accounts host [] (bytes 32 31)
open_key_grant-key_example =
    open_key_grant-key fleet opening accounts grant_envelope (state 3) host [] (bytes 32 31) opened₃

some_key : text_eq (state 3).key.enc_pub [] ≡ false
unfolding runs
some_key = refl

rotated-stale_example :
    check_key_grant fleet opening grant_envelope (state 5) accounts
    ≡ err (wrap "%w: the group has a new key since" stale)
rotated-stale_example =
    rotated-stale fleet chains opening accounts (state 3) (state 4) (state 5) (some envelope₄ ∷ [])
      envelope₅ grant_envelope link₅ grant granted₃ some_key steps₄ step₅ read₅ rotates₅

abbrev applied₅ : State
applied₅ = or_start (apply fleet (state 4) link₅)

run₅ : apply fleet (state 4) link₅ ≡ ok applied₅
unfolding runs
run₅ = refl

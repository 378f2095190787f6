-- ===== src/Tests/Team.antt =====
-- The project chain of `Project`, and the theorems about project chains at it.
use esec_vault.Base.{
  ◌≤◌, ◌<◌, ◌≡◌, ◌≢◌, refl, ok, err, new, some, none, [], ◌∷◌, codes, lookup, true, false, take,
}
use esec_vault.Base.{
  text_eq, text_lt, cut_prefix, matches, starts_class, has_suffix, contains, insert, update_all,
  any_value, count_values, runes, runes_after, sort, insert_sorted,
}
use esec_vault.Envelope.{
  check, require, require_keys, verified_by, signed_by, hash, hex_encode, message, decode,
  decode_strict, only_space, add_signatures, add_signature, kind_pattern,
}
use esec_vault.Chain.State as Account
use esec_vault.Chain.Valid.{valid_user, hex_decode, parse_key32, parse_sign_key}
use esec_vault.Chain.Delegates.{delegate_kind}
use esec_vault.Team.Types.{link_type, env_rename, env_set, unarchive}
use esec_vault.Team.State.{
  State, MemberState, EnvState, head, member, admin, admins, listed, member_has, rotations,
  env_names,
}
use esec_vault.Team.Valid.{
  valid_project, valid_login, login_pattern, valid_env, env_pattern, env_labels, root_pattern,
  valid_person, valid_env_key, reason_pattern, valid_reason,
}
use esec_vault.Team.Access.{decode_body, check_access, known_envs, expose_where, exposed_to}
use esec_vault.Team.Envs.{set_env, set_envs, apply_env_set}
use esec_vault.Team.Members.{apply_init, apply_member_add, apply_member_remove}
use esec_vault.Team.Delegate.{
  recorded_account, delegate_signer, verify_delegate, scope_of, project_scope,
}
use esec_vault.Team.Signer.{
  signer_key, creator_root, signer_root, web_add, check_own_key, check_delegate, check_signer,
}
use esec_vault.Team.Step.{
  signer_seq, check_link, check_size, may_apply, peek_link, apply_type, apply, step_link, step,
  steps, verify,
}
use esec_vault.Team.Admins.{verify-HasAdmin}
use esec_vault.Team.Scope.{IsLimited, delegate-IsLimited}
use esec_vault.Team.Signed.{IsVouched, step-IsVouched}
use esec_vault.Team.Exposed.{IsNoted, reads, step-IsNoted}
use esec_vault.Team.Bounds.{IsBounded, verify-IsBounded}
use esec_vault.Team.Archived.{IsFrozen, step-IsFrozen}
use esec_vault.Team.Keys.{has_key, steps-fresh_key}
use esec_vault.Team.Order.{steps-later-signer}
use esec_vault.Tests.Toy.{bytes}
use esec_vault.Tests.Project.{
  shared, chains, project, all_links, state, envelope₁, envelope₂, envelope₃, envelope₄, set_body,
  link₄, link₁, link₂, link₃, env,
}

-- what a run of the chain's code looks through
runs : Unit {0}
unfolding check require require_keys verified_by signed_by hash hex_encode message decode
    decode_strict only_space add_signatures add_signature kind_pattern text_eq text_lt cut_prefix
    matches starts_class has_suffix contains lookup insert update_all any_value count_values runes
    runes_after Account.head Account.root Account.epoch_at Account.epoch_before Account.delegate_at
    Account.delegate_allows valid_user hex_decode parse_key32 parse_sign_key delegate_kind link_type
    head member admin admins listed member_has valid_project valid_login login_pattern valid_env
    env_pattern env_labels root_pattern valid_person valid_env_key reason_pattern valid_reason
    decode_body check_access known_envs expose_where exposed_to set_env set_envs apply_env_set
    apply_init apply_member_add apply_member_remove recorded_account delegate_signer verify_delegate
    scope_of project_scope signer_key creator_root signer_root web_add check_own_key check_delegate
    check_signer signer_seq check_link check_size may_apply peek_link apply_type apply step_link
    step steps verify
runs = tt

verified₃ : verify shared chains project (take 3 all_links) ≡ ok (state 3)
unfolding runs
verified₃ = refl

size₃ : (state 3).seq ≡ 3
unfolding runs
size₃ = refl

step₃ : step shared chains (state 2) (some envelope₃) ≡ ok (state 3)
unfolding runs
step₃ = refl

step₂ : step shared chains (state 1) (some envelope₂) ≡ ok (state 2)
unfolding runs
step₂ = refl

step₁ : step shared chains (state 0) (some envelope₁) ≡ ok (state 1)
unfolding runs
step₁ = refl

read₁ : peek_link shared envelope₁ ≡ ok link₁
unfolding runs
read₁ = refl

read₂ : peek_link shared envelope₂ ≡ ok link₂
unfolding runs
read₂ = refl

read₃ : peek_link shared envelope₃ ≡ ok link₃
unfolding runs
read₃ = refl

no_steps : steps shared chains (state 1) [] ≡ ok (state 1)
unfolding runs
no_steps = refl

-- A link that leaves one out, and one that a stranger would make.
refused :
    (step shared chains (state 1) (some envelope₃) ≡ err (new "link is out of sequence"))
    × (step shared none (state 2) (some envelope₃)
        ≡ err (new "no user chains to verify signatures with"))
unfolding runs
refused = (refl, refl)

-- mia before she is removed, and the environment then
mia_there :
    (m : MemberState) × (member (state 2) (codes "gh:7") ≡ some m) × (member_has m env ≡ true)
unfolding runs
mia_there = (_, refl, refl)

env_there : (entry : EnvState) × (lookup env (state 2).envs ≡ some entry)
unfolding runs
env_there = (_, refl)

mia_gone : reads (state 3) (codes "gh:7") env ≡ false
unfolding runs reads
mia_gone = refl

by_delegate : link₃.signer_delegate ≢ []
by_delegate h = cc

no_rename : link_type link₃.typ ≢ env_rename
unfolding runs
no_rename h = cc

verify-HasAdmin_example : 0 < admins (state 3)
verify-HasAdmin_example =
    verify-HasAdmin shared chains project (some envelope₁) (some envelope₂ ∷ some envelope₃ ∷ [])
      (state 3) verified₃

delegate-IsLimited_example : IsLimited (state 2) (state 3)
delegate-IsLimited_example =
    delegate-IsLimited shared chains (state 2) envelope₃ link₃ (state 3) step₃ read₃ by_delegate

step-IsVouched_example : IsVouched shared chains (state 2) envelope₃
step-IsVouched_example = step-IsVouched shared chains (state 2) envelope₃ (state 3) step₃

step-IsNoted_example : IsNoted (state 3) mia_there.0.person.user env (state 3).seq
step-IsNoted_example =
    step-IsNoted shared chains (state 2) envelope₃ link₃ (state 3) (codes "gh:7") env mia_there.0
      env_there.0 step₃ read₃ no_rename mia_there.1 mia_there.2 env_there.1 mia_gone

steps-later-signer_example : 2 ≤ 2
steps-later-signer_example =
    steps-later-signer shared chains (state 0) (state 1) (state 1) (state 2) envelope₁ envelope₂ []
      link₁ link₂ step₁ read₁ no_steps step₂ read₂ refl

verify-IsBounded_example : IsBounded (state 3) × ((state 3).seq ≡ 3) × (3 ≤ 10000)
verify-IsBounded_example =
    verify-IsBounded shared chains project (take 3 all_links) (state 3) verified₃

-- the project with mia, archived
abbrev stopped : State
stopped = record (state 2) { archived = true }

abbrev stopped_without_mia : State
stopped_without_mia = record (state 3) { archived = true }

leaving : step shared chains stopped (some envelope₃) ≡ ok stopped_without_mia
unfolding runs
leaving = refl

no_end : link_type link₃.typ ≢ unarchive
unfolding runs
no_end h = cc

step-IsFrozen_example : IsFrozen stopped stopped_without_mia
step-IsFrozen_example =
    step-IsFrozen shared chains stopped envelope₃ link₃ stopped_without_mia leaving read₃ refl
      no_end

steps₃ : steps shared chains (state 1) (some envelope₂ ∷ some envelope₃ ∷ []) ≡ ok (state 3)
unfolding runs
steps₃ = refl

step₄ : step shared chains (state 3) (some envelope₄) ≡ ok (state 4)
unfolding runs
step₄ = refl

read₄ : peek_link shared envelope₄ ≡ ok link₄
unfolding runs
read₄ = refl

sets : link_type link₄.typ ≡ env_set
unfolding runs
sets = refl

body₄ : decode_body shared.env_set link₄ ≡ ok set_body
unfolding runs
body₄ = refl

first_key : has_key (state 1) (hex_encode (bytes 32 11)) ≡ true
unfolding runs
first_key = refl

steps-fresh_key_example : set_body.env.public_key ≢ hex_encode (bytes 32 11)
steps-fresh_key_example =
    steps-fresh_key shared chains (hex_encode (bytes 32 11)) (state 1) (state 3) (state 4)
      (some envelope₂ ∷ some envelope₃ ∷ []) envelope₄ link₄ set_body first_key steps₃ step₄ read₄
      sets body₄

-- The new key ends the project's need to replace one.
replaced : (rotations (state 3) ≡ env ∷ []) × (rotations (state 4) ≡ [])
unfolding runs rotations env_names sort insert_sorted
replaced = (refl, refl)

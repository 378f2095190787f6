-- ===== src/Team/Delegate.antt =====
-- internal/team/delegate.go: links that a person's delegate signs, and the scope each needs.
use esec_vault.Base.{
  ℕ, Bool, true, false, ◌&&◌, ◌||◌, not, Option, none, some, List, [], Text, codes, all, length,
  ltb, ◌==◌, text_eq, if◌then◌else◌, new, wrap, bad_signature, not_in_scope, Result, ok, err, ◌>>=◌,
  ◌>>◌, fail_if, require_that, wrapped,
}
use esec_vault.Envelope.{Envelope, check, challenge, verified_by}
use esec_vault.Chain.Types.{Time, is_zero}
use esec_vault.Chain.State as Account
use esec_vault.Chain.State.{DelegateState, delegate_at}
use esec_vault.Chain.Valid.{parse_sign_key}
use esec_vault.Chain.Delegates.{DelegateKind, delegate_kind, passkey, server, unknown_kind}
use esec_vault.Passkey as Passkey
use esec_vault.Team.Types.{
  Link, LinkType, link_type, member_add, member_update, member_remove, machine_remove, group_set,
  archive, unarchive, ProjectRef, MemberUpdateBody, GroupSetBody,
}
use esec_vault.Team.State.{State, MemberState, ProjectGroupState, listed, member, group}
use esec_vault.Team.Access.{decode_body}
use esec_vault.Team.External.{External, Chains}

abbrev pub verified_web : Text
verified_web = codes "web"

abbrev pub scope_remove : Text
scope_remove = codes "remove"

abbrev pub scope_manage : Text
scope_manage = codes "manage"

abbrev pub chain_of : Chains → Text → Result Account.State
chain_of none user = err (new "no user chains to verify signatures with")
chain_of (some chains) user = wrapped "user chain of %s: %w" (chains user)

-- whether a chain is the one that the project recorded for the user
unfoldable pub recorded_account : Account.State → Text → Text → Bool
recorded_account cs user root =
    text_eq cs.user user && not (text_eq (Account.root cs) []) && text_eq (Account.root cs) root

abbrev pub present_or : Option DelegateState → Result DelegateState
present_or none = err (new "%s had no delegate %s at the position it names")
present_or (some d) = ok d

unfoldable pub delegate_signer : Chains → Text → Text → Text → ℕ → Time → Result DelegateState
delegate_signer chains user root id seq ctime = do
  cs ← chain_of chains user
  require_that (recorded_account cs user root) (new "the account of %s is not the one recorded")
  d ← present_or (delegate_at cs id seq)
  fail_if (not (is_zero d.delegate.expires) && not (ltb ctime d.delegate.expires))
      (new "the delegate %s of %s had expired")
  ok d

abbrev pub has_passkey : Envelope → Bool
has_passkey e = elim e.passkey [ none ↦ false | some _ ↦ true ]

-- `subset`
unfoldable pub subset : List Text → List Text → Bool
subset a b = all (λ n. listed n b) a

abbrev pub out_of_scope : Result Text
out_of_scope = err (wrap "%w: %s" not_in_scope)

-- the scope that removing a person needs
abbrev pub remove_scope : Option MemberState → Result Text
remove_scope none = out_of_scope
remove_scope (some m) = if m.admin then out_of_scope else ok scope_remove

-- the scope that changing a person's access needs
abbrev pub update_scope : MemberUpdateBody → Option MemberState → Result Text
update_scope b none = out_of_scope
update_scope b (some m) =
    if m.admin || b.admin
    then out_of_scope
    else if subset b.envs m.envs
    then ok scope_remove
    else ok scope_manage

-- the scope that changing a group's access needs
abbrev pub group_scope : GroupSetBody → Option ProjectGroupState → Result Text
group_scope b none = out_of_scope
group_scope b (some g) =
    if not (text_eq g.root b.root)
    then out_of_scope
    else if subset b.envs g.envs
    then ok scope_remove
    else ok scope_manage

-- the scope that stopping a project needs: where it moves is not a delegate's to choose
abbrev pub archive_scope : Option ProjectRef → Result Text
archive_scope none = ok scope_manage
archive_scope (some ref) = out_of_scope

module _ (x : External) where
  abbrev pub verify_kind : DelegateKind → Envelope → DelegateState → Result (Unit {0})
  verify_kind server e d = do
    key ← parse_sign_key d.delegate.sign_pub
    fail_if (has_passkey e || not (verified_by x.keys.crypto e key)) (wrap "%w: %s" bad_signature)
  verify_kind passkey e d = do
    require_that (length e.sigs == 0) (new "a passkey's link carries no other signature")
    Passkey.verify x.keys x.browser e.passkey d.delegate (challenge x.keys.crypto e)
  verify_kind unknown_kind e d = err (new "unknown delegate kind %q")

  unfoldable pub verify_delegate : Envelope → Text → DelegateState → Result (Unit {0})
  verify_delegate e kind d = do
    check e
    require_that (text_eq e.kind kind) (new "expected %s envelope, got %s")
    verify_kind (delegate_kind d.delegate.kind) e d

  -- the `switch` of `projectScope`
  unfoldable pub scope_of : LinkType → State → Link → Result Text
  scope_of member_remove s l = do b ← decode_body x.member_remove l; remove_scope (member s b.user)
  scope_of member_update s l = do
    b ← decode_body x.member_update l
    update_scope b (member s b.user)
  scope_of machine_remove s l = ok scope_remove
  scope_of group_set s l = do b ← decode_body x.group_set l; group_scope b (group s b.group)
  scope_of member_add s l = do
    b ← decode_body x.member_add l
    if not b.admin && text_eq b.verified verified_web then ok scope_manage else out_of_scope
  scope_of archive s l = do b ← decode_body x.archive l; archive_scope b.successor
  scope_of unarchive s l = ok scope_manage
  scope_of _ s l = out_of_scope

  unfoldable pub project_scope : State → Link → Result Text
  project_scope s l = scope_of (link_type l.typ) s l

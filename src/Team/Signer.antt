-- ===== src/Team/Signer.antt =====
-- internal/team/team.go: who may sign a link of a project chain.
use esec_vault.Base.{
  ℕ, Bool, true, false, ◌&&◌, Option, none, some, [], ◌∷◌, Text, codes, ◌==◌, text_eq,
  if◌then◌else◌, new, wrap, not_in_scope, Result, ok, err, ◌>>=◌, ◌>>◌, fail_if, require_that,
}
use esec_vault.Envelope.{Envelope, require}
use esec_vault.Chain.State.{KeyEpoch, epoch_at, delegate_allows}
use esec_vault.Team.Types.{Link, LinkType, link_type, init, member_add, MemberAddBody}
use esec_vault.Team.State.{State, MemberState, member}
use esec_vault.Team.Access.{decode_body}
use esec_vault.Team.External.{External, Chains}
use esec_vault.Team.Delegate.{
  chain_of, recorded_account, delegate_signer, verify_delegate, project_scope, verified_web,
}

abbrev pub kind_link : Text
kind_link = codes "project-link"

abbrev pub current_key : Option KeyEpoch → ℕ → Result Text
current_key none version =
    err (new "signed with a user key of %s that was not current at the position it names")
current_key (some ep) version =
    if ep.version == version
    then ok ep.sign_pub
    else err (new "signed with a user key of %s that was not current at the position it names")

unfoldable pub signer_key : Chains → Text → Text → ℕ → ℕ → Result Text
signer_key chains user root version seq = do
  cs ← chain_of chains user
  require_that (recorded_account cs user root)
      (new "the account of %s is not the one the project recorded")
  current_key (epoch_at cs seq) version

abbrev pub root_or : Option MemberState → Result Text
root_or none = err (new "%s is not a member of the project")
root_or (some m) = ok m.person.root

abbrev pub is_init : LinkType → Bool
is_init init = true
is_init _ = false

abbrev pub is_member_add : LinkType → Bool
is_member_add member_add = true
is_member_add _ = false

abbrev pub says_web : Result MemberAddBody → Bool
says_web (ok b) = text_eq b.verified verified_web
says_web (err e) = false

module _ (x : External) where
  -- the root that the creator of a project names for themselves
  unfoldable pub creator_root : Link → Result Text
  creator_root l = do
    require_that (is_init (link_type l.typ)) (new "a project chain must start with an init link")
    b ← decode_body x.init l
    require_that (text_eq b.creator.user l.signer)
        (new "the init link must be signed by its creator")
    ok b.creator.root

  unfoldable pub signer_root : State → Link → Result Text
  signer_root s l = if l.seq == 1 then creator_root l else root_or (member s l.signer)

  unfoldable pub web_add : Link → Bool
  web_add l = is_member_add (link_type l.typ) && says_web (decode_body x.member_add l)

  -- a link that the signer's own user key signs
  unfoldable pub check_own_key : Envelope → Link → Text → Chains → Result (Unit {0})
  check_own_key e l root chains = do
    fail_if (web_add l) (new "only a delegate's link adds a member checked on the web")
    key ← signer_key chains l.signer root l.signer_key l.signer_seq
    require x.keys.crypto e kind_link (key ∷ [])

  -- a link that a delegate of the signer signs
  unfoldable pub check_delegate : State → Envelope → Link → Text → Chains → Result (Unit {0})
  check_delegate s e l root chains = do
    require_that (l.signer_key == 0) (new "a delegate's link names no user key version")
    d ← delegate_signer chains l.signer root l.signer_delegate l.signer_seq l.ctime
    scope ← project_scope x s l
    require_that (delegate_allows d.delegate.scope scope)
        (wrap "%w: the delegate %s may only sign %s changes" not_in_scope)
    verify_delegate x e kind_link d

  unfoldable pub check_signer : State → Envelope → Link → Text → Chains → Result (Unit {0})
  check_signer s e l root chains =
      if text_eq l.signer_delegate []
      then check_own_key e l root chains
      else check_delegate s e l root chains

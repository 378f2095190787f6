-- ===== src/Group/People.antt =====
-- internal/team/signers.go: who may sign the links of a group or organisation chain.
use esec_vault.Base.{
  ℕ, Bool, true, false, ◌&&◌, ◌||◌, not, Option, none, some, Text, Dict, lookup, ltb, ◌==◌, text_eq,
  if◌then◌else◌, new, wrap, not_in_scope, Result, ok, err, ◌>>=◌, ◌>>◌, fail_if, require_that,
}
use esec_vault.Envelope.{Envelope}
use esec_vault.Chain.Types.{Time}
use esec_vault.Chain.State as Account
use esec_vault.Chain.State.{DelegateState}
use esec_vault.Chain.Valid.{valid_user}
use esec_vault.Chain.Delegates.{DelegateKind, delegate_kind, server}
use esec_vault.Team.Types.{Person}
use esec_vault.Team.External.{External, Chains}
use esec_vault.Team.Delegate.{delegate_signer, verify_delegate}
use esec_vault.Team.Signer.{signer_key}
use esec_vault.Group.State.{PersonState, active_in}

-- `chainPeople`; `leave` is the one link type that a member signs.
pub record People : Type 0 where
  pub admins : Dict PersonState
  pub members : Dict PersonState
  pub seqs : Dict ℕ
  pub leave : Text

-- `signedHead`
pub record Head : Type 0 where
  pub seq : ℕ
  pub typ : Text
  pub signer : Text
  pub signer_key : ℕ
  pub signer_seq : ℕ
  pub signer_delegate : Text
  pub ctime : Time

abbrev pub seq_or_zero : Option ℕ → ℕ
seq_or_zero none = 0
seq_or_zero (some n) = n

-- the position that a signer has signed as of
abbrev pub signed_as_of : Dict ℕ → Text → ℕ
signed_as_of seqs user = seq_or_zero (lookup user seqs)

abbrev pub creator_of : Option Person → Text → Result Text
creator_of none signer = err (new "the init link must be signed by its creator")
creator_of (some p) signer =
    if text_eq p.user signer
    then ok p.root
    else err (new "the init link must be signed by its creator")

abbrev pub leaver : Bool → Option PersonState → Result Text
leaver leaves none = err (new "%s is not an admin of the %s")
leaver leaves (some m) =
    if leaves then ok m.person.root else err (new "%s is not an admin of the %s")

abbrev pub admin_or : Option PersonState → Result Text → Result Text
admin_or none other = other
admin_or (some a) other = ok a.person.root

-- the root of the account whose user key must have signed a link
unfoldable pub person_root : People → Head → Option Person → Result Text
person_root p h creator =
    if h.seq == 1
    then creator_of creator h.signer
    else admin_or (active_in h.signer p.admins)
        (leaver (text_eq h.typ p.leave) (active_in h.signer p.members))

unfoldable pub check_seq : People → Head → Result (Unit {0})
check_seq p h =
    fail_if (ltb h.signer_seq (signed_as_of p.seqs h.signer))
      (new "%s signed as of an earlier position of their user chain than before")

-- `userKey`
unfoldable pub user_key : People → Head → Option Person → Chains → Result Text
user_key p h creator chains = do
  valid_user h.signer
  root ← person_root p h creator
  key ← signer_key chains h.signer root h.signer_key h.signer_seq
  check_seq p h
  ok key

abbrev pub is_server : DelegateKind → Bool
is_server server = true
is_server _ = false

-- the admin whose delegate signs
abbrev pub delegator : Option PersonState → Head → Result Text
delegator none h = err (new "only an admin's delegate signs %s links")
delegator (some a) h =
    if not (h.signer_key == 0) || h.seq == 1
    then err (new "only an admin's delegate signs %s links")
    else ok a.person.root

module _ (x : External) where
  -- `delegateUnless`; `scope` is the scope that the link needs.
  unfoldable pub delegate_unless :
      People → Envelope → Text → Head → Chains → Result Text → Bool → Result (Unit {0})
  delegate_unless p e kind h chains scope no_server = do
    root ← delegator (active_in h.signer p.admins) h
    check_seq p h
    d ← delegate_signer chains h.signer root h.signer_delegate h.signer_seq h.ctime
    fail_if (no_server && is_server (delegate_kind d.delegate.kind))
        (new "the %s's rules let the server sign nothing")
    need ← scope
    require_that (Account.delegate_allows d.delegate.scope need)
        (wrap "%w: the delegate %s may only sign %s changes" not_in_scope)
    verify_delegate x e kind d

  -- `delegate`
  abbrev pub delegate : People → Envelope → Text → Head → Chains → Result Text → Result (Unit {0})
  delegate p e kind h chains scope = delegate_unless p e kind h chains scope false

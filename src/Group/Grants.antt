-- ===== src/Group/Grants.antt =====
-- internal/team/group.go: grants of a group's private key, and the credentials that open them.
use esec_vault.Base.{
  ℕ, Bool, true, false, ◌&&◌, ◌||◌, not, Option, none, some, [], ◌∷◌, Text, codes, length, ◌==◌,
  text_eq, if◌then◌else◌, new, wrap, stale, Result, ok, err, ◌>>=◌, ◌>>◌, fail_if, require_that,
  wrapped, or_fail, is_ok,
}
use esec_vault.Envelope.{Envelope, Decoder, check, decode, decode_strict, require, hex_encode}
use esec_vault.Chain.Types.{Time, is_zero}
use esec_vault.Chain.State as Account
use esec_vault.Chain.State.{KeyEpoch}
use esec_vault.Chain.Valid.{parse_key32, parse_sign_key}
use esec_vault.Group.Types.{token, workload}
use esec_vault.Group.State.{State, PersonState, CredState, active_in, cred, holds_key, same_kind}
use esec_vault.Group.External.{External}

abbrev pub kind_key : Text
kind_key = codes "group-key"

abbrev pub seal_kms : Text
seal_kms = codes "kms"

pub record KeyGrant : Type 0 where
  pub group : Text
  pub version : ℕ
  pub enc_pub : Text
  pub from : Text
  pub from_key : ℕ
  pub to : Text
  pub to_key : ℕ
  pub to_enc_pub : Text
  pub ctime : Time
  pub box : Text
  pub seal : Text

pub record KeyPayload : Type 0 where
  pub group : Text
  pub to : Text
  pub version : ℕ
  pub key : Text

-- The person or credential that a key was sealed to.
pub record Recipient : Type 0 where
  pub id : Text
  pub version : ℕ
  pub enc_pub : Text

-- What opening a grant calls: encoding/json, golang.org/x/crypto's boxes and curve25519.
pub record Opening : Type 0 where
  pub grant : Decoder KeyGrant
  pub payload : Decoder KeyPayload
  pub open_box : Text → Text → Text → Option Text
  pub public_half : Text → Text

-- the verified device chain of an account
abbrev pub AccountChains : Type 0
AccountChains = Text → Result Account.State

abbrev pub epoch_or : Option KeyEpoch → Result Text
epoch_or none = err (new "%s has no user key version %d")
epoch_or (some ep) = ok ep.sign_pub

abbrev pub admin_or_stale : Option PersonState → Result PersonState
admin_or_stale none = err (wrap "%w: %s is not an admin of %s" stale)
admin_or_stale (some a) = ok a

-- a user key that an active admin has or had
unfoldable pub admin_key : KeyGrant → State → AccountChains → Result Text
admin_key g s chains = do
  a ← admin_or_stale (active_in g.from s.admins)
  cs ← wrapped "user chain of %s: %w" (chains g.from)
  require_that (text_eq (Account.root cs) a.person.root)
      (new "the account of %s is not the one the group recorded")
  epoch_or (Account.epoch cs g.from_key)

abbrev pub token_or_admin : Option CredState → KeyGrant → State → AccountChains → Result Text
token_or_admin none g s chains = admin_key g s chains
token_or_admin (some t) g s chains =
    if same_kind t.kind token && (g.from_key == 0)
    then parse_sign_key t.cred.sign_pub
    else admin_key g s chains

-- `keyGrantSigner`
unfoldable pub key_grant_signer : KeyGrant → State → AccountChains → Result Text
key_grant_signer g s chains = token_or_admin (cred s g.from) g s chains

abbrev pub same_truth : Bool → Bool → Bool
same_truth true b = b
same_truth false b = not b

-- the check of whom a grant is sealed to
unfoldable pub check_recipient : Option CredState → KeyGrant → State → Result (Unit {0})
check_recipient (some c) g s =
    require_that
      ((g.to_key == 0)
        && text_eq g.to_enc_pub c.cred.enc_pub
        && same_truth (text_eq g.seal seal_kms) (same_kind c.kind workload)
        && (text_eq g.seal [] || text_eq g.seal seal_kms))
      (new "the key grant is not sealed to that machine's key")
check_recipient none g s = do
  require_that (text_eq g.seal []) (new "only a workload's key grant is wrapped with a KMS key")
  require_that (holds_key s g.to) (wrap "%w: %s is no longer in the group" stale)
  require_that (is_ok (parse_key32 g.to_enc_pub)) (new "invalid recipient key")

-- the checks of a grant before its signer
unfoldable pub check_current : KeyGrant → State → Result (Unit {0})
check_current g s = do
  require_that (text_eq g.group s.group) (new "the key grant is for another group")
  fail_if (is_zero g.ctime || length g.box == 0) (new "incomplete key grant")
  require_that ((g.version == s.key.version) && text_eq g.enc_pub s.key.enc_pub)
      (wrap "%w: the group has a new key since" stale)

module _ (x : External) (o : Opening) where
  unfoldable pub peek_key_grant : Envelope → Result KeyGrant
  peek_key_grant e = do
    check e
    require_that (text_eq e.kind kind_key) (new "not a group key grant")
    decode o.grant e

  -- `CheckKeyGrant`
  unfoldable pub check_key_grant : Envelope → State → AccountChains → Result KeyGrant
  check_key_grant e s chains = do
    g ← peek_key_grant e
    check_current g s
    key ← key_grant_signer g s chains
    require x.team.keys.crypto e kind_key (key ∷ [])
    check_recipient (cred s g.to) g s
    ok g

  -- `openPayload`
  unfoldable pub open_payload : Text → KeyGrant → State → Result Text
  open_payload plain g s = do
    p ← wrapped "invalid key grant content: %w" (decode_strict o.payload plain)
    require_that (text_eq p.group g.group && text_eq p.to g.to && (p.version == g.version))
        (new "the key grant's content does not match it")
    k ← or_fail (parse_key32 p.key) (new "invalid group key in the grant")
    require_that (text_eq (hex_encode (o.public_half k)) s.key.enc_pub)
        (new "the key in the grant is not the group's key")
    ok k

  abbrev pub opened : Option Text → Result Text
  opened none = err (new "the key grant does not open with this key")
  opened (some plain) = ok plain

  -- `OpenKeyGrant`
  unfoldable pub open_key_grant : Envelope → State → AccountChains → Recipient → Text → Result Text
  open_key_grant e s chains me priv = do
    g ← check_key_grant e s chains
    require_that (text_eq g.to me.id) (new "the key grant is for someone else")
    require_that ((g.to_key == me.version) && text_eq g.to_enc_pub (hex_encode me.enc_pub))
        (wrap "%w: it was sealed to an earlier key" stale)
    plain ← opened (o.open_box g.box me.enc_pub priv)
    open_payload plain g s

  -- `OpenWorkloadKeyGrant`, with the key service's answer
  unfoldable pub open_workload_key_grant :
      Envelope → State → AccountChains → Text → (Text → Result Text) → Result Text
  open_workload_key_grant e s chains id unwrap = do
    g ← check_key_grant e s chains
    require_that (text_eq g.to id && text_eq g.seal seal_kms)
        (new "the key grant is not this workload's")
    plain ← unwrap g.box
    open_payload plain g s

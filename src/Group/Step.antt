-- ===== src/Group/Step.antt =====
-- internal/team/group.go: verifying a link as the next of a group chain, and a whole chain.
use esec_vault.Base.{
  ℕ, ◌+◌, ◌%◌, ◌^◌, Bool, true, false, ◌&&◌, ◌||◌, not, Option, none, some, List, [], ◌∷◌, ◌++◌,
  Text, Dict, codes, insert, length, ltb, ◌==◌, text_eq, if◌then◌else◌, new, wrap, not_in_scope,
  Result, ok, err, ◌>>=◌, ◌>>◌, fail_if, require_that, wrapped, is_ok,
}
use esec_vault.Envelope.{Envelope, non_nil, check, decode, require, hash}
use esec_vault.Chain.Types.{hour, is_zero}
use esec_vault.Chain.Valid.{parse_sign_key}
use esec_vault.Team.Types.{Person}
use esec_vault.Team.Delegate.{verified_web, scope_remove, scope_manage}
use esec_vault.Team.Types as TeamTypes
use esec_vault.Team.Valid.{valid_group}
use esec_vault.Team.External.{Chains}
use esec_vault.Group.Types.{
  Link, LinkType, link_type, init, admin_add, admin_remove, machine_add, token_add, workload_add,
  workload_rekey, remove, key_rotate, access_add, access_remove, member_add, member_remove,
  unknown_type, token, max_admins, max_members, max_creds, max_projects, MemberAddBody,
}
use esec_vault.Group.State.{State, CredState, start, head, cred, expired, same_kind}
use esec_vault.Group.People.{People, Head, user_key, delegate}
use esec_vault.Group.Valid.{valid_cred_id}
use esec_vault.Group.Creds.{
  decode_body, apply_machine_add, apply_token_add, apply_workload_add, apply_workload_rekey,
  apply_remove, apply_key_rotate,
}
use esec_vault.Group.Persons.{
  apply_init, apply_admin_add, apply_admin_remove, apply_member_add, apply_member_remove,
  apply_access_add, apply_access_remove,
}
use esec_vault.Group.External.{External}

abbrev pub kind_link : Text
kind_link = codes "group-link"

abbrev pub is_init : LinkType → Bool
is_init init = true
is_init _ = false

abbrev pub is_machine_add : LinkType → Bool
is_machine_add machine_add = true
is_machine_add _ = false

abbrev pub is_member_add : LinkType → Bool
is_member_add member_add = true
is_member_add _ = false

-- the tests of `step` on a decoded link before its signer
unfoldable pub check_link : State → Link → Result (Unit {0})
check_link s l = do
  require_that (text_eq l.group s.group) (new "link belongs to another group")
  fail_if (not (l.seq == (s.seq + 1) % 2 ^ 64) || not (text_eq l.prev (head s)))
      (new "link is out of sequence")
  fail_if (is_zero l.ctime) (new "link time missing")
  fail_if (not (is_zero s.last_time) && ltb (l.ctime + hour) s.last_time)
      (new "link time goes backwards")

unfoldable pub check_size : State → Result (Unit {0})
check_size s =
    fail_if
      (ltb max_admins (length s.admins)
        || ltb max_members (length s.members)
        || ltb max_creds s.active
        || ltb max_projects (length s.access))
      (new "the group has too many admins, members, machines or projects")

abbrev pub people : State → People
people s = record {
  admins = s.admins;
  members = s.members;
  seqs = s.signer_seqs;
  leave = codes "member_remove";
}

abbrev pub head_of : Link → Head
head_of l = record {
  seq = l.seq;
  typ = l.typ;
  signer = l.signer;
  signer_key = l.signer_key;
  signer_seq = l.signer_seq;
  signer_delegate = l.signer_delegate;
  ctime = l.ctime;
}

abbrev pub out_of_scope : Result Text
out_of_scope = err (wrap "%w: %s" not_in_scope)

abbrev pub says_web : Result MemberAddBody → Bool
says_web (ok b) = text_eq b.verified verified_web
says_web (err e) = false

abbrev pub token_or : Option CredState → Result CredState
token_or none = err (new "the link is signed by an unknown or removed token")
token_or (some t) =
    if same_kind t.kind token
    then ok t
    else err (new "the link is signed by an unknown or removed token")

-- the key of an enrollment token
unfoldable pub token_key : State → Link → Result Text
token_key s l = do
  t ← token_or (cred s l.signer)
  require_that (is_machine_add (link_type l.typ) && (l.signer_key == 0) && (l.signer_seq == 0))
      (new "a token can only enroll machines")
  fail_if (expired t l.ctime) (new "the token had expired")
  parse_sign_key t.cred.sign_pub

-- `s.signerSeqs` after a link
abbrev pub note_seq : Link → Dict ℕ → Dict ℕ
note_seq l seqs = if ltb 0 l.signer_seq then insert l.signer l.signer_seq seqs else seqs

module _ (x : External) where
  unfoldable pub peek_link : Envelope → Result Link
  peek_link e = do
    check e
    require_that (text_eq e.kind kind_link) (new "not a group chain link")
    decode x.link e

  -- the person who makes the group with its first link
  unfoldable pub first_person : Link → Result Person
  first_person l = do
    require_that (is_init (link_type l.typ)) (new "a group chain must start with an init link")
    b ← decode_body x.init l
    ok b.creator

  abbrev pub known_creator : Result Person → Result (Option Person)
  known_creator (err e) = err e
  known_creator (ok p) = ok (some p)

  unfoldable pub creator : Link → Result (Option Person)
  creator l = if l.seq == 1 then known_creator (first_person l) else ok none

  -- the user key of an admin, or of a member who leaves
  unfoldable pub person_key : State → Link → Chains → Result Text
  person_key s l chains = do made_by ← creator l; user_key (people s) (head_of l) made_by chains

  -- `signerKey`
  unfoldable pub signer_key : State → Link → Chains → Result Text
  signer_key s l chains =
      if is_ok (valid_cred_id l.signer) then token_key s l else person_key s l chains

  -- the `switch` of `groupScope`
  unfoldable pub scope_of : LinkType → Link → Result Text
  scope_of remove l = do
    b ← decode_body x.remove l
    if b.destroyed then out_of_scope else ok scope_remove
  scope_of access_remove l = ok scope_remove
  scope_of member_remove l = ok scope_remove
  scope_of member_add l = do
    b ← decode_body x.member_add l
    if text_eq b.verified verified_web then ok scope_manage else out_of_scope
  scope_of _ l = out_of_scope

  unfoldable pub group_scope : Link → Result Text
  group_scope l = scope_of (link_type l.typ) l

  unfoldable pub web_add : Link → Bool
  web_add l = is_member_add (link_type l.typ) && says_web (decode_body x.member_add l)

  -- a link that the signer's own key signs
  unfoldable pub check_own_key : State → Envelope → Link → Chains → Result (Unit {0})
  check_own_key s e l chains = do
    fail_if (web_add l) (new "only a delegate's link adds a member checked on the web")
    key ← signer_key s l chains
    require x.team.keys.crypto e kind_link (key ∷ [])

  unfoldable pub check_signer : State → Envelope → Link → Chains → Result (Unit {0})
  check_signer s e l chains =
      if text_eq l.signer_delegate []
      then check_own_key s e l chains
      else delegate x.team (people s) e kind_link (head_of l) chains (group_scope l)

  -- the `switch` of `apply`
  unfoldable pub apply_type : LinkType → State → Link → Result State
  apply_type init s l = apply_init x s l
  apply_type admin_add s l = apply_admin_add x s l
  apply_type admin_remove s l = apply_admin_remove x s l
  apply_type machine_add s l = apply_machine_add x s l
  apply_type token_add s l = apply_token_add x s l
  apply_type workload_add s l = apply_workload_add x s l
  apply_type workload_rekey s l = apply_workload_rekey x s l
  apply_type remove s l = apply_remove x s l
  apply_type key_rotate s l = apply_key_rotate x s l
  apply_type access_add s l = apply_access_add x s l
  apply_type access_remove s l = apply_access_remove x s l
  apply_type member_add s l = apply_member_add x s l
  apply_type member_remove s l = apply_member_remove x s l
  apply_type unknown_type s l = err (new "unknown link type %q")

  unfoldable pub apply : State → Link → Result State
  apply s l = do
    fail_if ((l.seq == 1) && not (is_init (link_type l.typ)))
        (new "a group chain must start with an init link")
    apply_type (link_type l.typ) s l

  -- the signer checked, the link applied and recorded
  unfoldable pub step_link : Chains → State → Envelope → Link → Result State
  step_link chains s e l = do
    check_signer s e l chains
    t ← apply s l
    check_size t
    ok (record t {
      signer_seqs = note_seq l t.signer_seqs;
      seq = l.seq;
      hashes = t.hashes ++ hash x.team.keys.crypto e ∷ [];
      last_time = l.ctime;
      links = t.links ++ l ∷ [];
    })

  unfoldable pub step : Chains → State → Option Envelope → Result State
  step chains s ptr = do e ← non_nil ptr; l ← peek_link e; check_link s l; step_link chains s e l

  -- `Next`
  unfoldable pub next : Chains → State → Option Envelope → Result State
  next chains s e = step chains s e

  -- the loop of `VerifyGroup`
  unfoldable pub steps : Chains → State → List (Option Envelope) → Result State
  steps chains s [] = ok s
  steps chains s (e ∷ es) =
      wrapped "group chain link %d: %w" (step chains s e) >>= λ t. steps chains t es

  -- `VerifyGroup`
  unfoldable pub verify : Chains → Text → List (Option Envelope) → Result State
  verify chains group envelopes = do
    valid_group x.team group
    fail_if (ltb TeamTypes.max_links (length envelopes)) (new "group chain too long")
    steps chains (start group) envelopes

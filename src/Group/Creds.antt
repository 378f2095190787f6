-- ===== src/Group/Creds.antt =====
-- internal/team/group.go: the group's key, and the link types for machines, tokens and workloads.
use esec_vault.Base.{
  ◌+◌, ◌-◌, ◌%◌, ◌^◌, Bool, true, false, ◌&&◌, ◌||◌, not, Option, none, some, [], ◌∷◌, ◌++◌, Text,
  codes, Dict, lookup, insert, any_value, take, ◌==◌, text_eq, if◌then◌else◌, is_some, is_ok, new,
  Result, ok, err, ◌>>=◌, ◌>>◌, fail_if, require_that, wrapped, or_fail,
}
use esec_vault.Envelope.{Decoder, decode_strict}
use esec_vault.Chain.Types.{is_zero, zero_time}
use esec_vault.Chain.Valid.{valid_device_name, parse_key32}
use esec_vault.Kms as Kms
use esec_vault.Team.State.{Exposure}
use esec_vault.Team.Valid as TeamValid
use esec_vault.Team.Oidc.{validate_any}
use esec_vault.Group.Types.{Link, GroupKey, Credential, Kind, machine, token, workload}
use esec_vault.Group.State.{State, CredState, cred, kind_text, same_kind}
use esec_vault.Group.Valid.{
  valid_cred_id, join_pattern, id_prefix, same_oidc, check_cred_keys, kms_name,
}
use esec_vault.Group.External.{External}

-- `decodeGroupBody`
unfoldable pub decode_body : {A : Type 0} → Decoder A → Link → Result A
decode_body d l = wrapped "invalid %s body: %w" (decode_strict d l.body)

abbrev pub is_true : Option Bool → Bool
is_true none = false
is_true (some b) = b

-- `s.retired[key]`
abbrev pub was_retired : State → Text → Bool
was_retired s key = is_true (lookup key s.retired)

abbrev pub uses_key : Text → CredState → Bool
uses_key key c = text_eq c.cred.enc_pub key

-- the keys used up by a new group key
abbrev pub retire : State → Dict Bool
retire s = if text_eq s.key.enc_pub [] then s.retired else insert s.key.enc_pub true s.retired

unfoldable pub set_key : State → GroupKey → Link → Result State
set_key s k l = do
  require_that (is_ok (parse_key32 k.enc_pub) && TeamValid.is_lower_case k.enc_pub)
      (new "invalid group key")
  fail_if (was_retired s k.enc_pub || text_eq k.enc_pub s.key.enc_pub)
      (new "the group key was already used")
  fail_if (any_value (uses_key k.enc_pub) s.creds) (new "the group key was already used")
  ok (record s { retired = retire s; key = k; key_since = l.ctime; key_exposed = [] })

-- a key that another credential has; workloads may share one
abbrev pub shares_key : Credential → Kind → CredState → Bool
shares_key c kind o =
    not (same_kind kind workload && same_kind o.kind workload)
    && ((not (text_eq c.sign_pub []) && text_eq o.cred.sign_pub c.sign_pub)
        || text_eq o.cred.enc_pub c.enc_pub)

abbrev pub new_cred : Credential → Kind → Text → Link → CredState
new_cred c kind join l = record {
  cred = c;
  kind = kind;
  active = true;
  added_by = l.signer;
  added_seq = l.seq;
  added_time = l.ctime;
  join = join;
  removed_seq = 0;
  removed_time = zero_time;
  destroyed = false;
  reason = [];
}

abbrev pub token_policy : Option CredState → Credential → Bool
token_policy none c = true
token_policy (some t) c = same_oidc t.cred.oidc c.oidc

abbrev pub workload_or : Option CredState → Result CredState
workload_or none = err (new "%s is not an active workload of the group")
workload_or (some c) =
    if same_kind c.kind workload
    then ok c
    else err (new "%s is not an active workload of the group")

abbrev pub cred_or : Option CredState → Result CredState
cred_or none = err (new "%s is not an active machine or token of the group")
cred_or (some c) = ok c

-- who may still hold the group's key
abbrev pub exposure : Text → Text → Link → Text → Exposure
exposure holder name l reason = record {
  holder = holder;
  name = name;
  seq = l.seq;
  time = l.ctime;
  reason = reason;
}

module _ (x : External) where
  unfoldable pub add_cred : State → Credential → Kind → Text → Link → Result State
  add_cred s c kind join l = do
    valid_cred_id c.id
    require_that (text_eq (take 2 c.id) (id_prefix kind))
        (new "machine ids start with m_, token ids with t_, workload ids with w_")
    or_fail (valid_device_name c.name)
        (new "a name is 1-64 letters, digits, spaces or ._()'- characters")
    check_cred_keys x c kind
    fail_if (is_zero c.created) (new "creation time missing")
    fail_if (same_kind kind machine && not (is_zero c.expires)) (new "only tokens expire")
    validate_any c.oidc
    fail_if (is_some (lookup c.id s.creds)) (new "id reused")
    fail_if (any_value (shares_key c kind) s.creds) (new "keys reused")
    fail_if (text_eq c.enc_pub s.key.enc_pub || was_retired s c.enc_pub) (new "keys reused")
    ok (record s { creds = insert c.id (new_cred c kind join l) s.creds; active = s.active + 1 })

  unfoldable pub apply_machine_add : State → Link → Result State
  apply_machine_add s l = do
    b ← decode_body x.machine_add l
    fail_if (not (text_eq b.join []) && not (join_pattern b.join)) (new "invalid join request id")
    require_that (token_policy (cred s l.signer) b.machine)
        (new "a machine a token enrolls has the token's OIDC policy")
    add_cred s b.machine machine b.join l

  unfoldable pub apply_token_add : State → Link → Result State
  apply_token_add s l = do b ← decode_body x.token_add l; add_cred s b.token token [] l

  unfoldable pub apply_workload_add : State → Link → Result State
  apply_workload_add s l = do b ← decode_body x.workload_add l; add_cred s b.workload workload [] l

  unfoldable pub apply_workload_rekey : State → Link → Result State
  apply_workload_rekey s l = do
    b ← decode_body x.workload_rekey l
    c ← workload_or (cred s b.id)
    Kms.validate x.services b.kms
    fail_if (text_eq (kms_name x b.kms) c.cred.enc_pub) (new "the workload has that key already")
    ok (record s {
      creds =
          insert b.id
            (record c { cred = record c.cred { kms = some b.kms; enc_pub = kms_name x b.kms } })
            s.creds;
    })

  unfoldable pub apply_remove : State → Link → Result State
  apply_remove s l = do
    b ← decode_body x.remove l
    TeamValid.valid_reason x.team b.reason
    c ← cred_or (cred s b.id)
    ok (record s {
      creds =
          insert b.id
            (record c {
              active = false;
              removed_seq = l.seq;
              removed_time = l.ctime;
              destroyed = b.destroyed;
              reason = b.reason;
            })
            s.creds;
      active = s.active - 1;
      key_exposed =
          if b.destroyed
          then s.key_exposed
          else s.key_exposed
            ++ exposure c.cred.id c.cred.name l (kind_text c.kind ++ codes " removed") ∷ [];
    })

  unfoldable pub apply_key_rotate : State → Link → Result State
  apply_key_rotate s l = do
    b ← decode_body x.key_rotate l
    TeamValid.valid_reason x.team b.reason
    require_that (b.key.version == (s.key.version + 1) % 2 ^ 64)
        (new "the group key version must go up by one")
    set_key s b.key l

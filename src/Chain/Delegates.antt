-- ===== src/Chain/Delegates.antt =====
-- internal/chain/delegate.go: which delegates a person may add, and the two link types for them.
use esec_vault.Base.{
  ℕ, Bool, true, false, ◌&&◌, ◌||◌, not, Option, none, some, [], ◌∷◌, Text, codes, length, all,
  get_last?, leb, ltb, ◌==◌, is_lower_alnum, text_eq, cut_prefix, has_suffix, matches, lookup,
  insert, any_value, count_values, is_some, if◌then◌else◌, ℤ, pos, negsuc, int_eq, new, wrap,
  Result, ok, err, ◌>>=◌, ◌>>◌, fail_if, require_that, wrapped, or_fail,
}
use esec_vault.Envelope.{decode_strict, Decoder}
use esec_vault.Chain.Types.{Link, Delegate, is_zero, max_delegates}
use esec_vault.Chain.State.{State, DelegateState}
use esec_vault.Chain.Valid.{valid_device_name, parse_sign_key, split_at}
use esec_vault.Chain.External.{External, PublicKey, ecdsa, ed25519, other_key}

-- `decodeBody`
unfoldable pub decode_body : {A : Type 0} → Decoder A → Link → Result A
decode_body decoder l = wrapped "invalid %s body: %w" (decode_strict decoder l.body)

-- `^dl_[a-z0-9]{8,40}$`
unfoldable pub delegate_id_pattern : Text → Bool
delegate_id_pattern = matches (codes "dl_") is_lower_alnum 8 40

abbrev pub is_rp_char : ℕ → Bool
is_rp_char c = is_lower_alnum c || c == b'.' || c == b'-'

abbrev pub ends_alnum : Option ℕ → Bool
ends_alnum none = false
ends_alnum (some c) = is_lower_alnum c

abbrev pub starts_alnum : Text → Bool
starts_alnum [] = false
starts_alnum (c ∷ s) = is_lower_alnum c

-- `^[a-z0-9]([a-z0-9.-]{0,251}[a-z0-9])?$`
unfoldable pub rp_id_pattern : Text → Bool
rp_id_pattern s =
    starts_alnum s && all is_rp_char s && ends_alnum (get_last? s) && leb (length s) 253

abbrev pub alg_es256 : ℤ
alg_es256 = negsuc 6

abbrev pub alg_eddsa : ℤ
alg_eddsa = negsuc 7

abbrev pub matching_key : ℤ → Option PublicKey → Result PublicKey
matching_key alg none = err (wrap "invalid passkey public key: %w" (new "x509"))
matching_key alg (some (ecdsa p256 k)) =
    if not (int_eq alg alg_es256) || not p256
    then err (new "a passkey's ECDSA key must be ES256 on P-256")
    else ok (ecdsa p256 k)
matching_key alg (some (ed25519 k)) =
    if not (int_eq alg alg_eddsa)
    then err (new "a passkey's Ed25519 key must be EdDSA")
    else ok (ed25519 k)
matching_key alg (some other_key) = err (new "unsupported passkey key type")

abbrev pub is_loopback : Text → Bool
is_loopback rp =
    text_eq rp (codes "localhost")
    || text_eq rp (codes "127.0.0.1")
    || has_suffix (codes ".localhost") rp

abbrev pub http_host : Text → Option Text → Result Text
http_host rp none = err (new "a passkey's origin must be https")
http_host rp (some host) =
    if is_loopback rp then ok host else err (new "a passkey's origin must be https")

abbrev pub https_host : Text → Text → Option Text → Result Text
https_host rp origin none = http_host rp (cut_prefix (codes "http://") origin)
https_host rp origin (some host) = ok host

-- `strings.Cut(host, ":")`, the part before
abbrev pub before_port : Text → Option (Text × Text) → Text
before_port host none = host
before_port host (some (h, port)) = h

unfoldable pub check_origin : Text → Text → Result (Unit {0})
check_origin rp origin = do
  host ← https_host rp origin (cut_prefix (codes "https://") origin)
  let h = before_port host (split_at b':' host)
  fail_if (not (text_eq h rp) && not (has_suffix (b'.' ∷ rp) h))
      (new "a passkey's origin must be on its relying party")

unfoldable pub validate_server : Delegate → Result (Unit {0})
validate_server d = do
  require_that (text_eq d.scope (codes "remove")) (new "the server may only sign removals")
  key ← wrapped "server key: %w" (parse_sign_key d.sign_pub)
  fail_if
      (not (int_eq d.alg (pos 0))
        || ltb 0 (length d.public_key)
        || ltb 0 (length d.credential_id)
        || not (text_eq d.rp_id [])
        || not (text_eq d.origin []))
      (new "a server delegate has no passkey fields")

-- The delegate kinds; the text of one is read by `delegate_kind`.
pub data DelegateKind : Type 0 where
  passkey server unknown_kind : DelegateKind

unfoldable pub delegate_kind : Text → DelegateKind
delegate_kind t =
    if text_eq t (codes "server")
    then server
    else if text_eq t (codes "passkey")
    then passkey
    else unknown_kind

module _ (x : External) where
  unfoldable pub passkey_public_key : ℤ → Text → Result PublicKey
  passkey_public_key alg spki = do
    fail_if (length spki == 0 || ltb 512 (length spki)) (new "invalid passkey public key")
    matching_key alg (x.parse_pkix spki)

  unfoldable pub validate_passkey : Delegate → Result (Unit {0})
  validate_passkey d = do
    require_that (text_eq d.scope (codes "remove") || text_eq d.scope (codes "manage"))
        (new "unknown delegate scope %q")
    require_that (text_eq d.sign_pub []) (new "a passkey has no Ed25519 key field")
    key ← passkey_public_key d.alg d.public_key
    fail_if (length d.credential_id == 0 || ltb 1023 (length d.credential_id))
        (new "invalid passkey credential id")
    require_that (rp_id_pattern d.rp_id) (new "invalid passkey relying party")
    check_origin d.rp_id d.origin

  -- the `switch` of `ValidateDelegate`
  abbrev pub validate_kind : DelegateKind → Delegate → Result (Unit {0})
  validate_kind server d = validate_server d
  validate_kind passkey d = validate_passkey d
  validate_kind unknown_kind d = err (new "unknown delegate kind %q")

  unfoldable pub validate_delegate : Delegate → Result (Unit {0})
  validate_delegate d = do
    require_that (delegate_id_pattern d.id) (new "invalid delegate id")
    or_fail (valid_device_name d.name)
        (new "a delegate's name is 1-64 letters, digits, spaces or ._()'- characters")
    fail_if (is_zero d.created) (new "delegate creation time missing")
    require_that (is_zero d.expires) (new "delegates do not expire; remove one instead")
    validate_kind (delegate_kind d.kind) d

  abbrev pub same_credential : Delegate → DelegateState → Bool
  same_credential d o =
      o.active
      && text_eq d.kind (codes "passkey")
      && text_eq o.delegate.credential_id d.credential_id

  abbrev pub both_servers : Delegate → DelegateState → Bool
  both_servers d o =
      o.active && text_eq d.kind (codes "server") && text_eq o.delegate.kind (codes "server")

  -- The loop over the active delegates can return one of two errors, by the new delegate's kind.
  unfoldable pub apply_delegate_add : State → Link → Result State
  apply_delegate_add s l = do
    b ← decode_body x.delegate_add l
    let d = b.delegate
    validate_delegate d
    fail_if (not (is_zero d.expires) && not (ltb l.ctime d.expires))
        (new "a delegate must not expire before it is added")
    fail_if (is_some (lookup d.id s.delegates)) (new "delegate id reused")
    fail_if (any_value (same_credential d) s.delegates) (new "that passkey is a delegate already")
    fail_if (any_value (both_servers d) s.delegates) (new "the server is a delegate already")
    fail_if (leb max_delegates (count_values (λ o. o.active) s.delegates))
        (new "too many delegates")
    ok (record s {
      delegates =
          insert d.id (record { delegate = d; active = true; added_seq = l.seq; removed_seq = 0 })
            s.delegates;
    })

  abbrev pub active_or : Option DelegateState → Result DelegateState
  active_or none = err (new "removed delegate is not active")
  active_or (some d) = if d.active then ok d else err (new "removed delegate is not active")

  unfoldable pub apply_delegate_remove : State → Link → Result State
  apply_delegate_remove s l = do
    b ← decode_body x.delegate_remove l
    d ← active_or (lookup b.id s.delegates)
    ok (record s {
      delegates = insert b.id (record d { active = false; removed_seq = l.seq }) s.delegates;
    })

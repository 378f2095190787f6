-- ===== src/Chain/SecurityKeys.antt =====
-- internal/chain/securitykey.go: the hardware keys of a chain, and the two link types for them.
use esec_vault.Base.{
  ℕ, Bool, true, false, ◌&&◌, ◌||◌, not, Option, none, some, [], ◌∷◌, List, Text, codes, length,
  all, any, leb, ltb, ◌==◌, in_range, is_lower_alnum, text_eq, cut_prefix, has_prefix, starts_class,
  lookup, insert, any_value, count_values, is_some, if◌then◌else◌, new, Result, ok, err, ◌>>=◌,
  ◌>>◌, fail_if, require_that, wrapped,
}
use esec_vault.PasskeyGuard.{parse_recipient}
use esec_vault.Chain.Types.{Link, SecurityKey, max_security_keys}
use esec_vault.Chain.State.{State, SecurityKeyState}
use esec_vault.Chain.Valid.{valid_device_name}
use esec_vault.Chain.External.{External}
use esec_vault.Chain.Delegates.{decode_body}

abbrev pub is_key_id_char : ℕ → Bool
is_key_id_char c = is_lower_alnum c || c == b':' || c == b'.' || c == b'_' || c == b'-'

-- `^[a-z0-9][a-z0-9:._-]{0,127}$`
unfoldable pub security_key_id : Text → Bool
security_key_id = starts_class is_lower_alnum is_key_id_char 127

-- `[02-9ac-hj-np-z]`
abbrev pub is_bech32 : ℕ → Bool
is_bech32 c =
    c == b'0'
    || in_range b'2' b'9' c
    || c == b'a'
    || in_range b'c' b'h' c
    || in_range b'j' b'n' c
    || in_range b'p' b'z' c

abbrev pub after_prefix : Option Text → Bool
after_prefix none = false
after_prefix (some rest) = all is_bech32 rest && leb 20 (length rest)

abbrev pub recipient_prefixes : List Text
recipient_prefixes =
    codes "age1yubikey1"
    ∷ codes "age1se1"
    ∷ codes "age1passkey1"
    ∷ codes "age1tag1"
    ∷ codes "age1tagpq1"
    ∷ []

-- `^age1(yubikey|se|passkey|tag|tagpq)1[02-9ac-hj-np-z]{20,}$`
unfoldable pub security_key_recipient : Text → Bool
security_key_recipient s = any (λ prefix. after_prefix (cut_prefix prefix s)) recipient_prefixes

-- The kinds; the text of one is read by `key_kind`.
pub data KeyKind : Type 0 where
  yubikey se passkey unknown_kind : KeyKind

unfoldable pub key_kind : Text → KeyKind
key_kind t =
    if text_eq t (codes "yubikey")
    then yubikey
    else if text_eq t (codes "se")
    then se
    else if text_eq t (codes "passkey")
    then passkey
    else unknown_kind

abbrev pub known_kind : KeyKind → Bool
known_kind unknown_kind = false
known_kind yubikey = true
known_kind se = true
known_kind passkey = true

-- strings.ContainsAny(serial, " \t\r\n")
abbrev pub is_blank : ℕ → Bool
is_blank c = c == 32 || c == 9 || c == 13 || c == 10

module _ (x : External) where
  abbrev pub recipient_of_kind : KeyKind → Text → Result (Unit {0})
  recipient_of_kind passkey r =
      wrapped "invalid passkey recipient: %w" (parse_recipient x.age r) >>= λ _. ok tt
  recipient_of_kind _ r =
      fail_if (has_prefix (codes "age1passkey1") r) (new "passkey recipient requires passkey kind")

  unfoldable pub validate_security_key : SecurityKey → Result (Unit {0})
  validate_security_key k = do
    require_that (security_key_id k.id) (new "invalid security key id %q")
    require_that (known_kind (key_kind k.kind)) (new "unknown security key kind %q")
    fail_if (ltb 4096 (length k.recipient) || not (security_key_recipient k.recipient))
        (new "not a hardware age recipient: %.24q")
    recipient_of_kind (key_kind k.kind) k.recipient
    wrapped "security key name: %w" (valid_device_name k.name)
    fail_if (ltb 32 (length k.serial) || any is_blank k.serial) (new "invalid serial %q")

  unfoldable pub apply_security_key_add : State → Link → Result State
  apply_security_key_add s l = do
    b ← decode_body x.security_key_add l
    validate_security_key b.key
    fail_if (is_some (lookup b.key.id s.security_keys)) (new "security key id reused")
    fail_if (any_value (λ k. text_eq k.key.recipient b.key.recipient) s.security_keys)
        (new "security key recipient reused")
    fail_if (leb max_security_keys (count_values (λ k. k.active) s.security_keys))
        (new "at most %d security keys")
    ok (record s {
      security_keys =
          insert b.key.id
            (record {
              key = b.key;
              active = true;
              added = l.ctime;
              added_seq = l.seq;
              removed_seq = 0;
            })
            s.security_keys;
    })

  abbrev pub active_or : Option SecurityKeyState → Result SecurityKeyState
  active_or none = err (new "removed security key is not active")
  active_or (some k) = if k.active then ok k else err (new "removed security key is not active")

  unfoldable pub apply_security_key_remove : State → Link → Result State
  apply_security_key_remove s l = do
    b ← decode_body x.security_key_remove l
    k ← active_or (lookup b.id s.security_keys)
    ok (record s {
      security_keys =
          insert b.id (record k { active = false; removed_seq = l.seq }) s.security_keys;
    })

-- ===== src/Chain/Step.antt =====
-- internal/chain/chain.go: verifying a link as the next of a chain, and a whole chain.
use esec_vault.Base.{
  ℕ, ◌+◌, ◌%◌, ◌^◌, Bool, true, false, ◌&&◌, ◌||◌, not, Option, List, [], ◌∷◌, ◌++◌, Text, codes,
  length, any, ltb, ◌==◌, text_eq, update_all, if◌then◌else◌, new, Result, ok, err, ◌>>=◌, ◌>>◌,
  fail_if, require_that, wrapped, is_some,
}
use esec_vault.Envelope.{Envelope, non_nil, check, decode, require, hash, hex_encode}
use esec_vault.Chain.Types.{
  Link, LinkType, link_type, init, device_add, device_revoke, device_rename, ukey_rotate,
  agent_slot_add, agent_slot_remove, delegate_add, delegate_remove, security_key_add,
  security_key_remove, revoked, is_active, is_zero, day, max_links,
}
use esec_vault.Chain.State.{
  State, DeviceState, SlotState, DelegateState, start, head, active_device,
}
use esec_vault.Chain.Valid.{parse_key32, parse_sign_key, valid_user, kind_link}
use esec_vault.Chain.External.{External}
use esec_vault.Chain.Delegates.{decode_body, apply_delegate_add, apply_delegate_remove}
use esec_vault.Chain.SecurityKeys.{apply_security_key_add, apply_security_key_remove}
use esec_vault.Chain.Devices.{
  apply_device_add, apply_device_revoke, apply_device_rename, apply_agent_slot_add,
  apply_agent_slot_remove,
}

-- `uint64`
abbrev pub wrap64 : ℕ → ℕ
wrap64 n = n % 2 ^ 64

-- `RootStatement`
unfoldable pub root_statement : Text → Text → Text → Text
root_statement enc sign master =
    codes "esec-vault root v1\n"
    ++ (hex_encode enc
        ++ (codes "\n" ++ (hex_encode sign ++ (codes "\n" ++ (hex_encode master ++ codes "\n")))))

-- Whether the loop over the kept devices passes: each is active, and none is listed twice.
unfoldable pub all_kept : State → List Text → List Text → Bool
all_kept s seen [] = true
all_kept s seen (id ∷ ids) =
    is_some (active_device s id) && not (any (text_eq id) seen) && all_kept s (id ∷ seen) ids

abbrev pub no_ids : List Text → Bool
no_ids [] = true
no_ids (id ∷ ids) = false

abbrev pub is_init : LinkType → Bool
is_init init = true
is_init _ = false

-- what a rotation does to a device, a slot and a delegate
abbrev pub drop_device : ℕ → List Text → Text → DeviceState → DeviceState
drop_device seq keep id d =
    if is_active d.status && not (any (text_eq id) keep)
    then record d { status = revoked; revoked_seq = seq }
    else d

abbrev pub drop_slot : Text → SlotState → SlotState
drop_slot id sl = record sl { active = false }

abbrev pub drop_delegate : ℕ → Text → DelegateState → DelegateState
drop_delegate seq id d = if d.active then record d { active = false; removed_seq = seq } else d

-- the tests of `step` on a decoded link
unfoldable pub check_link : State → Link → Result (Unit {0})
check_link s l = do
  require_that (text_eq l.user s.user) (new "link belongs to a different user")
  fail_if (not (l.seq == wrap64 (s.seq + 1)) || not (text_eq l.prev (head s)))
      (new "link is out of sequence")
  fail_if (is_zero l.ctime) (new "link time missing")
  fail_if (not (is_zero s.last_time) && ltb (l.ctime + day) s.last_time)
      (new "link time goes backwards")

module _ (x : External) where
  unfoldable pub apply_init : State → Envelope → Link → Result State
  apply_init s e l = do
    fail_if (not (is_init (link_type l.typ)) || not (l.ukey_version == 1))
        (new "chain must start with an init link for key version 1")
    b ← decode_body x.init l
    enc ← parse_key32 b.enc_pub
    sign ← parse_sign_key b.sign_pub
    master ← parse_key32 b.master_pub
    master_sign ← wrapped "master signing key: %w" (parse_sign_key b.master_sign_pub)
    require_that (x.crypto.verify master_sign (root_statement enc sign master) b.root_sig)
        (new "root key is not authorized by the master signing key")
    require x.crypto e kind_link (sign ∷ [])
    ok (record s {
      ukey_version = 1;
      enc_pub = enc;
      sign_pub = sign;
      master_pub = master;
      master_sign_pub = master_sign;
      epochs =
          record { version = 1; enc_pub = enc; sign_pub = sign; seq = l.seq; since = l.ctime } ∷ [];
    })

  unfoldable pub apply_rotate : State → Envelope → Link → Result State
  apply_rotate s e l = do
    require_that (l.ukey_version == wrap64 (s.ukey_version + 1))
        (new "rotation must advance the key version by one")
    b ← decode_body x.ukey_rotate l
    enc ← parse_key32 b.enc_pub
    sign ← parse_sign_key b.sign_pub
    fail_if (text_eq enc s.enc_pub || text_eq sign s.sign_pub)
        (new "rotation must replace both keys")
    require x.crypto e kind_link (s.sign_pub ∷ sign ∷ [])
    fail_if (no_ids b.devices) (new "rotation must keep at least one device")
    require_that (all_kept s [] b.devices) (new "rotation lists an inactive or duplicate device")
    ok (record s {
      devices = update_all (drop_device l.seq b.devices) s.devices;
      slots = update_all drop_slot s.slots;
      delegates = update_all (drop_delegate l.seq) s.delegates;
      ukey_version = l.ukey_version;
      enc_pub = enc;
      sign_pub = sign;
      epochs =
          s.epochs
          ++ record {
            version = l.ukey_version;
            enc_pub = enc;
            sign_pub = sign;
            seq = l.seq;
            since = l.ctime;
          }
            ∷ [];
    })

  -- the `switch` of `apply`
  unfoldable pub apply_type : LinkType → State → Link → Result State
  apply_type device_add s l = apply_device_add x s l
  apply_type device_revoke s l = apply_device_revoke x s l
  apply_type device_rename s l = apply_device_rename x s l
  apply_type agent_slot_add s l = apply_agent_slot_add x s l
  apply_type agent_slot_remove s l = apply_agent_slot_remove x s l
  apply_type delegate_add s l = apply_delegate_add x s l
  apply_type delegate_remove s l = apply_delegate_remove x s l
  apply_type security_key_add s l = apply_security_key_add x s l
  apply_type security_key_remove s l = apply_security_key_remove x s l
  apply_type _ s l = err (new "unknown link type %q")

  -- the guards of `apply` before its `switch`
  unfoldable pub apply_current : LinkType → State → Envelope → Link → Result State
  apply_current t s e l = do
    require_that (l.ukey_version == s.ukey_version) (new "link names key version %d, current is %d")
    require x.crypto e kind_link (s.sign_pub ∷ [])
    apply_type t s l

  unfoldable pub apply_as : LinkType → State → Envelope → Link → Result State
  apply_as init s e l = err (new "init link after the start of the chain")
  apply_as ukey_rotate s e l = apply_rotate s e l
  apply_as t s e l = apply_current t s e l

  unfoldable pub apply : State → Envelope → Link → Result State
  apply s e l = apply_as (link_type l.typ) s e l

  unfoldable pub read_link : Envelope → Result Link
  read_link e = do
    check e
    require_that (text_eq e.kind kind_link) (new "not a chain link")
    decode x.link e

  -- the link applied, by its position, and recorded
  unfoldable pub step_link : State → Envelope → Link → Result State
  step_link s e l = do
    t ← if l.seq == 1 then apply_init s e l else apply s e l
    ok (record t {
      seq = l.seq;
      hashes = t.hashes ++ hash x.crypto e ∷ [];
      last_time = l.ctime;
      links = t.links ++ l ∷ [];
    })

  unfoldable pub step : State → Option Envelope → Result State
  step s ptr = do e ← non_nil ptr; l ← read_link e; check_link s l; step_link s e l

  -- `Next`
  unfoldable pub next : State → Option Envelope → Result State
  next s e = step s e

  -- the loop of `Verify`
  unfoldable pub steps : State → List (Option Envelope) → Result State
  steps s [] = ok s
  steps s (e ∷ es) = wrapped "chain link %d: %w" (step s e) >>= λ t. steps t es

  unfoldable pub verify : Text → List (Option Envelope) → Result State
  verify user envelopes = do
    valid_user user
    fail_if (ltb max_links (length envelopes)) (new "chain too long")
    steps (start user) envelopes

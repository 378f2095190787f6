-- ===== src/Group/Rekey.antt =====
-- About setKey of internal/team/group.go: a new key for a group.
use esec_vault.Base.{
  ◌≡◌, ap, Bool, true, false, ◌||◌, [], Text, ok, arith, lookup, any_value, lookup-insert, text_eq,
  text_eq_iff, is_ok, Bool-cases, inl, inr,
}
use esec_vault.Chain.Valid.{parse_key32}
use esec_vault.Group.Types.{Link, GroupKey}
use esec_vault.Group.State.{State, CredState}
use esec_vault.Group.Creds.{is_true, was_retired, uses_key, retire, set_key}

-- a key that the group has or had
abbrev pub is_group_key : State → Text → Bool
is_group_key s key = text_eq key s.key.enc_pub || was_retired s key

abbrev pub has_group_key : State → CredState → Bool
has_group_key s c = is_group_key s c.cred.enc_pub

-- the text of a 32-byte key
abbrev pub is_key : Text → Bool
is_key key = is_ok (parse_key32 key)

pub retire-other :
    (s : State) (key : Text) → is_group_key s key ≡ false → is_true (lookup key (retire s)) ≡ false
retire-other s key h = elim (Bool-cases (text_eq s.key.enc_pub [])) [
  | inl none_yet ↦ ground (arith, none_yet)
  | inr some_key ↦ ground (
    arith,
    some_key,
    lookup-insert s.key.enc_pub key true s.retired,
    text_eq_iff s.key.enc_pub key,
    text_eq_iff key s.key.enc_pub,
  )
]

pub retire-same :
    (s : State) (key : Text)
    → text_eq key [] ≡ false
    → is_group_key s key ≡ true
    → is_true (lookup key (retire s)) ≡ true
retire-same s key not_empty h = elim (Bool-cases (text_eq s.key.enc_pub [])) [
  | inl none_yet ↦ ground (
    arith,
    none_yet,
    text_eq_iff s.key.enc_pub [],
    ap (text_eq key) ((text_eq_iff s.key.enc_pub []).0 none_yet),
  )
  | inr some_key ↦ ground (
    arith,
    some_key,
    lookup-insert s.key.enc_pub key true s.retired,
    text_eq_iff s.key.enc_pub key,
    text_eq_iff key s.key.enc_pub,
  )
]

-- the state after a new key
abbrev pub rekeyed : State → GroupKey → Link → State
rekeyed s k l = record s { retired = retire s; key = k; key_since = l.ctime; key_exposed = [] }

-- what `set_key` asks of a key
pub record IsNewKey (s : State) (k : GroupKey) : Type 0 where
  pub parses : is_key k.enc_pub ≡ true
  pub unused : is_group_key s k.enc_pub ≡ false
  pub no_cred : any_value (uses_key k.enc_pub) s.creds ≡ false

pub set_key-IsNewKey :
    (s : State) (k : GroupKey) (l : Link) (t : State) → set_key s k l ≡ ok t → IsNewKey s k
unfolding set_key
set_key-IsNewKey s k l t h = record {
  parses = ground arith;
  unused = ground arith;
  no_cred = ground arith;
}

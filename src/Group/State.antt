-- ===== src/Group/State.antt =====
-- internal/team/group.go: the state that verifying a group chain computes, and what is looked up in
-- it.
use esec_vault.Base.{
  ℕ, zero, suc, Bool, true, false, ◌&&◌, ◌||◌, not, Option, none, some, List, [], ◌∷◌, ◌++◌, Text,
  codes, Dict, lookup, get_elem?, get_last?, ltb, text_eq, text_lt, if◌then◌else◌, is_some, wrap,
  rollback, Result, ok, ◌>>◌, fail_if, require_that, values_where, sort, map, is_upper, ◌+◌,
}
use esec_vault.Chain.State.{same_hash, or_empty}
use esec_vault.Chain.Types.{Time, is_zero, zero_time}
use esec_vault.Team.Types.{Person}
use esec_vault.Team.State.{Exposure, if_active}
use esec_vault.Group.Types.{Link, GroupKey, Credential, Kind, machine, token, workload}

-- an admin or member
pub record PersonState : Type 0 where
  pub person : Person
  pub active : Bool
  pub verified : Text
  pub added_by : Text
  pub added_seq : ℕ
  pub removed_seq : ℕ
  pub removed_time : Time

pub record CredState : Type 0 where
  pub cred : Credential
  pub kind : Kind
  pub active : Bool
  pub added_by : Text
  pub added_seq : ℕ
  pub added_time : Time
  pub join : Text
  pub removed_seq : ℕ
  pub removed_time : Time
  pub destroyed : Bool
  pub reason : Text

-- `Expired`
unfoldable pub expired : CredState → Time → Bool
expired c now = not (is_zero c.cred.expires) && not (ltb now c.cred.expires)

pub record State : Type 0 where
  pub group : Text
  pub seq : ℕ
  pub hashes : List Text
  pub last_time : Time
  pub links : List Link
  pub admins : Dict PersonState
  pub members : Dict PersonState
  pub creds : Dict CredState
  pub key : GroupKey
  pub key_since : Time
  pub key_exposed : List Exposure
  pub access : Dict Text
  pub retired : Dict Bool
  pub signer_seqs : Dict ℕ
  pub active : ℕ

-- `NewGroup`
abbrev pub start : Text → State
start group = record {
  group = group;
  seq = 0;
  hashes = [];
  last_time = zero_time;
  links = [];
  admins = [];
  members = [];
  creds = [];
  key = record { version = 0; enc_pub = [] };
  key_since = zero_time;
  key_exposed = [];
  access = [];
  retired = [];
  signer_seqs = [];
  active = 0;
}

unfoldable pub head : State → Text
head s = or_empty (get_last? s.hashes)

unfoldable pub root : State → Text
root s = or_empty (get_elem? s.hashes 0)

unfoldable pub check_pin : State → ℕ → Text → Result (Unit {0})
check_pin s zero hash = ok tt
check_pin s (suc n) hash = do
  fail_if (ltb s.seq (suc n))
      (wrap "%w: the server's chain for %s has %d links, this device has seen %d" rollback)
  require_that (same_hash (get_elem? s.hashes n) hash)
      (wrap "%w: link %d of %s differs from the one this device verified" rollback)

-- an active one of the people
abbrev pub active_in : Text → Dict PersonState → Option PersonState
active_in user people = if_active (λ (p : PersonState). p.active) (lookup user people)

unfoldable pub admin : State → Text → Bool
admin s user = is_some (active_in user s.admins)

unfoldable pub member : State → Text → Bool
member s user = is_some (active_in user s.members)

unfoldable pub holds_key : State → Text → Bool
holds_key s user = admin s user || member s user

abbrev pub first_of : Option PersonState → Option PersonState → Option PersonState
first_of none m = m
first_of (some a) m = some a

-- `Person`
unfoldable pub person : State → Text → Option PersonState
person s user = first_of (active_in user s.admins) (active_in user s.members)

-- `strings.ToLower` of a login, which is ASCII
abbrev pub to_lower : Text → Text
to_lower = map (λ (c : ℕ). if is_upper c then c + 32 else c)

abbrev pub by_login : PersonState → PersonState → Bool
by_login a b = text_lt (to_lower a.person.login) (to_lower b.person.login)

unfoldable pub active_people : Dict PersonState → List PersonState
active_people people = sort by_login (values_where (λ p. p.active) people)

unfoldable pub active_admins : State → List PersonState
active_admins s = active_people s.admins

unfoldable pub active_members : State → List PersonState
active_members s = active_people s.members

abbrev pub not_admins : State → List PersonState → List PersonState
not_admins s [] = []
not_admins s (m ∷ ms) = if admin s m.person.user then not_admins s ms else m ∷ not_admins s ms

unfoldable pub key_holders : State → List PersonState
key_holders s = sort by_login (active_admins s ++ not_admins s (active_members s))

-- `Cred`
unfoldable pub cred : State → Text → Option CredState
cred s id = if_active (λ (c : CredState). c.active) (lookup id s.creds)

abbrev pub same_kind : Kind → Kind → Bool
same_kind machine machine = true
same_kind token token = true
same_kind workload workload = true
same_kind _ _ = false

abbrev pub wanted : Option Kind → Kind → Bool
wanted none k = true
wanted (some want) k = same_kind k want

abbrev pub by_name : CredState → CredState → Bool
by_name a b =
    if text_eq a.cred.name b.cred.name
    then text_lt a.cred.id b.cred.id
    else text_lt a.cred.name b.cred.name

-- `ActiveCreds`, of a kind or of all
unfoldable pub active_creds : State → Option Kind → List CredState
active_creds s kind = sort by_name (values_where (λ c. c.active && wanted kind c.kind) s.creds)

unfoldable pub projects : State → List Text
projects s = sort text_lt (map (λ (a : Text × Text). a.0) s.access)

abbrev pub kind_text : Kind → Text
kind_text machine = codes "machine"
kind_text token = codes "token"
kind_text workload = codes "workload"

-- ===== src/Group/Change.antt =====
-- What an accepted link changes in a group: the abstract view of `apply`, in which the checks of
-- texts, keys and reasons are gone.
pub mod Refines
use esec_vault.Base.{
  ◌≡◌, ℕ, ◌+◌, ◌-◌, ◌%◌, ◌^◌, Bool, true, false, ◌||◌, Option, none, some, List, [], ◌∷◌, ◌++◌,
  Text, codes, lookup, insert, delete, any_value, ◌==◌, text_eq, if◌then◌else◌, ok, length, Dict,
}
use esec_vault.Kms as Kms
use esec_vault.Group.Types.{
  Link, LinkType, init, admin_add, admin_remove, machine_add, token_add, workload_add,
  workload_rekey, remove, key_rotate, access_add, access_remove, member_add, member_remove, Kind,
  machine, token, workload, Credential, InitBody, AdminAddBody, AdminRemoveBody, MemberAddBody,
  MemberRemoveBody, RemoveBody, GroupKey,
}
use esec_vault.Group.State.{
  State, PersonState, CredState, active_in, admin, holds_key, active_admins, cred, kind_text,
  same_kind,
}
use esec_vault.Group.Valid.{kms_name}
use esec_vault.Group.Creds.{
  decode_body, set_key, shares_key, was_retired, new_cred, token_policy, exposure,
}
use esec_vault.Group.Persons.{new_person, ended, end_member}
use esec_vault.Group.External.{External}

-- what a link type adds
abbrev pub added_kind : LinkType → Option Kind
added_kind machine_add = some machine
added_kind token_add = some token
added_kind workload_add = some workload
added_kind _ = none

-- a machine that a token enrolls has the token's policy
abbrev pub may_enroll : State → Link → Kind → Credential → Bool
may_enroll s l machine c = token_policy (cred s l.signer) c
may_enroll s l token c = true
may_enroll s l workload c = true

module _ (x : External) where
  pub data Change (s : State) (l : Link) : LinkType → State → Type 0 where
    created :
        (b : InitBody) (t : State)
        → l.seq ≡ 1
        → b.key.version ≡ 1
        → set_key s b.key l ≡ ok t
        → Change s l init
            (record t { admins = insert b.creator.user (new_person b.creator [] l) t.admins })
    admin_added :
        (b : AdminAddBody) (members : Dict PersonState)
        → admin s b.admin.user ≡ false
        → end_member (active_in b.admin.user s.members) b.admin s.members l ≡ ok members
        → Change s l admin_add (record s {
          members = members;
          admins = insert b.admin.user (new_person b.admin b.verified l) s.admins;
        })
    admin_removed :
        (b : AdminRemoveBody) (a : PersonState)
        → active_in b.user s.admins ≡ some a
        → (length (active_admins s) == 1) ≡ false
        → Change s l admin_remove (record s {
          admins = insert b.user (ended a l) s.admins;
          key_exposed =
              s.key_exposed ++ exposure a.person.user a.person.login l (codes "admin removed") ∷ [];
        })
    member_added :
        (b : MemberAddBody)
        → decode_body x.member_add l ≡ ok b
        → holds_key s b.member.user ≡ false
        → Change s l member_add (record s {
          members = insert b.member.user (new_person b.member b.verified l) s.members;
        })
    member_removed :
        (b : MemberRemoveBody) (m : PersonState) (why : Text)
        → active_in b.user s.members ≡ some m
        → (admin s l.signer || text_eq l.signer b.user) ≡ true
        → Change s l member_remove (record s {
          members = insert b.user (ended m l) s.members;
          key_exposed = s.key_exposed ++ exposure m.person.user m.person.login l why ∷ [];
        })
    cred_added :
        (k : LinkType) (c : Credential) (kind : Kind) (join : Text)
        → added_kind k ≡ some kind
        → may_enroll s l kind c ≡ true
        → lookup c.id s.creds ≡ none
        → any_value (shares_key c kind) s.creds ≡ false
        → (text_eq c.enc_pub s.key.enc_pub || was_retired s c.enc_pub) ≡ false
        → Change s l k (record s {
          creds = insert c.id (new_cred c kind join l) s.creds;
          active = s.active + 1;
        })
    workload_rekeyed :
        (id : Text) (k : Kms.Key) (c : CredState)
        → cred s id ≡ some c
        → same_kind c.kind workload ≡ true
        → Change s l workload_rekey (record s {
          creds =
              insert id
                (record c { cred = record c.cred { kms = some k; enc_pub = kms_name x k } })
                s.creds;
        })
    cred_removed :
        (b : RemoveBody) (c : CredState)
        → decode_body x.remove l ≡ ok b
        → cred s b.id ≡ some c
        → Change s l remove (record s {
          creds =
              insert b.id
                (record c {
                  active = false;
                  removed_seq = l.seq;
                  removed_time = l.ctime;
                  destroyed = b.destroyed;
                  reason = b.reason;
                })
                s.creds;
          active = s.active - 1;
          key_exposed =
              if b.destroyed
              then s.key_exposed
              else s.key_exposed
                ++ exposure c.cred.id c.cred.name l (kind_text c.kind ++ codes " removed") ∷ [];
        })
    key_rotated :
        (k : GroupKey) (t : State)
        → k.version ≡ (s.key.version + 1) % 2 ^ 64
        → set_key s k l ≡ ok t
        → Change s l key_rotate t
    access_added :
        (project root : Text)
        → lookup project s.access ≡ none
        → Change s l access_add (record s { access = insert project root s.access })
    access_removed :
        (project : Text) → Change s l access_remove (record s { access = delete project s.access })

-- ===== src/Group/Persons.antt =====
-- internal/team/group.go: the link types for the group's people and for the projects it trusts.
use esec_vault.Base.{
  Bool, true, false, ◌||◌, Option, none, some, [], ◌∷◌, ◌++◌, Text, codes, Dict, lookup, insert,
  delete, length, ◌==◌, text_eq, if◌then◌else◌, is_some, new, Result, ok, err, ◌>>=◌, ◌>>◌, fail_if,
  require_that, String,
}
use esec_vault.Chain.Types.{zero_time}
use esec_vault.Team.Types.{Person}
use esec_vault.Team.Delegate.{verified_web}
use esec_vault.Team.Valid.{valid_person, valid_reason, valid_project, root_pattern}
use esec_vault.Group.Types.{Link}
use esec_vault.Group.State.{State, PersonState, active_in, admin, holds_key, active_admins}
use esec_vault.Group.Creds.{decode_body, set_key, exposure}
use esec_vault.Group.External.{External}

-- a person whom a link adds
abbrev pub new_person : Person → Text → Link → PersonState
new_person p verified l = record {
  person = p;
  active = true;
  verified = verified;
  added_by = l.signer;
  added_seq = l.seq;
  removed_seq = 0;
  removed_time = zero_time;
}

-- a person whom a link takes out
abbrev pub ended : PersonState → Link → PersonState
ended p l = record p { active = false; removed_seq = l.seq; removed_time = l.ctime }

-- `Verified` of a person whom a device checked
abbrev pub checked_by_device : Text → Bool
checked_by_device v = text_eq v (codes "github_ssh") || text_eq v (codes "account_key")

-- a member who becomes an admin is an admin only
abbrev pub end_member :
    Option PersonState → Person → Dict PersonState → Link → Result (Dict PersonState)
end_member none p members l = ok members
end_member (some m) p members l = do
  require_that (text_eq m.person.root p.root) (new "%s's account is not the one the group recorded")
  ok (insert p.user (ended m l) members)

abbrev pub person_or : String → Option PersonState → Result PersonState
person_or why none = err (new why)
person_or why (some p) = ok p

module _ (x : External) where
  unfoldable pub apply_init : State → Link → Result State
  apply_init s l = do
    require_that (l.seq == 1) (new "init link after the start of the chain")
    b ← decode_body x.init l
    valid_person b.creator
    require_that (b.key.version == 1) (new "the first group key is version 1")
    t ← set_key s b.key l
    ok (record t { admins = insert b.creator.user (new_person b.creator [] l) t.admins })

  unfoldable pub apply_admin_add : State → Link → Result State
  apply_admin_add s l = do
    b ← decode_body x.admin_add l
    valid_person b.admin
    require_that (checked_by_device b.verified) (new "unknown verification %q")
    fail_if (admin s b.admin.user) (new "%s is already an admin")
    members ← end_member (active_in b.admin.user s.members) b.admin s.members l
    ok (record s {
      members = members;
      admins = insert b.admin.user (new_person b.admin b.verified l) s.admins;
    })

  unfoldable pub apply_admin_remove : State → Link → Result State
  apply_admin_remove s l = do
    b ← decode_body x.admin_remove l
    valid_reason x.team b.reason
    a ← person_or "%s is not an admin" (active_in b.user s.admins)
    fail_if (length (active_admins s) == 1) (new "a group needs at least one admin")
    ok (record s {
      admins = insert b.user (ended a l) s.admins;
      key_exposed =
          s.key_exposed ++ exposure a.person.user a.person.login l (codes "admin removed") ∷ [];
    })

  unfoldable pub apply_member_add : State → Link → Result State
  apply_member_add s l = do
    b ← decode_body x.member_add l
    valid_person b.member
    require_that (checked_by_device b.verified || text_eq b.verified verified_web)
        (new "unknown verification %q")
    fail_if (holds_key s b.member.user) (new "%s is already in the group")
    ok (record s { members = insert b.member.user (new_person b.member b.verified l) s.members })

  unfoldable pub apply_member_remove : State → Link → Result State
  apply_member_remove s l = do
    b ← decode_body x.member_remove l
    valid_reason x.team b.reason
    m ← person_or "%s is not a member of the group" (active_in b.user s.members)
    require_that (admin s l.signer || text_eq l.signer b.user)
        (new "a member can only remove themselves")
    ok (record s {
      members = insert b.user (ended m l) s.members;
      key_exposed =
          s.key_exposed
          ++ exposure m.person.user m.person.login l
              (if text_eq l.signer b.user then codes "member left" else codes "member removed")
            ∷ [];
    })

  unfoldable pub apply_access_add : State → Link → Result State
  apply_access_add s l = do
    b ← decode_body x.access_add l
    valid_project x.team b.project
    require_that (root_pattern b.root) (new "invalid project root")
    fail_if (is_some (lookup b.project s.access)) (new "the group already takes keys from %s")
    ok (record s { access = insert b.project b.root s.access })

  unfoldable pub apply_access_remove : State → Link → Result State
  apply_access_remove s l = do
    b ← decode_body x.access_remove l
    require_that (is_some (lookup b.project s.access)) (new "the group does not take keys from %s")
    ok (record s { access = delete b.project s.access })

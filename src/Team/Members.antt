-- ===== src/Team/Members.antt =====
-- internal/team/team.go: the link types for the project's people.
use esec_vault.Base.{
  Bool, true, false, ◌&&◌, ◌||◌, not, Option, none, some, List, [], Text, codes, lookup, insert,
  ◌==◌, text_eq, if◌then◌else◌, new, Result, ok, err, ◌>>=◌, ◌>>◌, fail_if, require_that, is_ok,
}
use esec_vault.Team.Types.{Link, ProjectRef, Person}
use esec_vault.Team.State.{State, MemberState, member, admin, admins, member_has}
use esec_vault.Team.Valid.{valid_person, valid_project, valid_reason, root_pattern}
use esec_vault.Team.Access.{decode_body, check_access, expose_where, access_removed}
use esec_vault.Team.Envs.{set_envs}
use esec_vault.Team.External.{External}
use esec_vault.Team.Delegate.{verified_web}

abbrev pub is_active : Option MemberState → Bool
is_active none = false
is_active (some m) = m.active

abbrev pub member_or : Option MemberState → Result MemberState
member_or none = err (new "%s is not a member")
member_or (some m) = ok m

-- `Verified` of a member added by a device or on the web
abbrev pub known_verification : Text → Bool
known_verification v =
    text_eq v (codes "github_ssh") || text_eq v (codes "account_key") || text_eq v verified_web

-- the person as a member whom a link adds
abbrev pub new_member : Person → Bool → List Text → Text → Link → MemberState
new_member p admin envs verified l = record {
  person = p;
  admin = admin;
  envs = envs;
  active = true;
  verified = verified;
  added_by = l.signer;
  added_seq = l.seq;
  removed_seq = 0;
}

-- A body without a reference leaves the one that is recorded.
abbrev pub ref_or : Option ProjectRef → Option ProjectRef → Option ProjectRef
ref_or none old = old
ref_or (some ref) old = some ref

module _ (x : External) where
  -- the check of a predecessor that may be missing
  abbrev pub valid_predecessor : State → Option ProjectRef → Result (Unit {0})
  valid_predecessor s none = ok tt
  valid_predecessor s (some ref) =
      fail_if
        (not (is_ok (valid_project x ref.project))
          || text_eq ref.project s.project
          || not (root_pattern ref.root))
        (new "invalid predecessor")

  unfoldable pub apply_init : State → Link → Result State
  apply_init s l = do
    require_that (l.seq == 1) (new "init link after the start of the chain")
    b ← decode_body x.init l
    valid_person b.creator
    valid_predecessor s b.predecessor
    t ← set_envs s b.envs l
    ok (record t {
      predecessor = ref_or b.predecessor t.predecessor;
      members = insert b.creator.user (new_member b.creator true [] [] l) t.members;
    })

  unfoldable pub apply_member_add : State → Link → Result State
  apply_member_add s l = do
    b ← decode_body x.member_add l
    valid_person b.member
    require_that (known_verification b.verified) (new "unknown verification %q")
    fail_if (is_active (lookup b.member.user s.members)) (new "%s is already a member")
    envs ← check_access s b.admin b.envs
    ok (record s {
      members = insert b.member.user (new_member b.member b.admin envs b.verified l) s.members;
    })

  unfoldable pub apply_member_update : State → Link → Result State
  apply_member_update s l = do
    b ← decode_body x.member_update l
    m ← member_or (member s b.user)
    envs ← check_access s b.admin b.envs
    fail_if (m.admin && not b.admin && (admins s == 1)) (new "a project needs at least one admin")
    let next = record m { admin = b.admin; envs = envs }
    ok (record s {
      members = insert b.user next s.members;
      envs =
          expose_where (λ n. member_has m n && not (member_has next n)) m.person.user m.person.login
            l (access_removed "access to ") s.envs;
    })

  unfoldable pub apply_member_remove : State → Link → Result State
  apply_member_remove s l = do
    b ← decode_body x.member_remove l
    valid_reason x b.reason
    require_that (text_eq b.user l.signer || admin s l.signer)
        (new "only an admin can make a %s link")
    m ← member_or (member s b.user)
    fail_if (m.admin && (admins s == 1))
        (new "the last admin cannot leave; make someone else an admin first")
    let why = if text_eq b.user l.signer then codes "left the project" else codes "removed"
    ok (record s {
      members = insert b.user (record m { active = false; removed_seq = l.seq }) s.members;
      envs = expose_where (member_has m) m.person.user m.person.login l (λ _. why) s.envs;
    })

-- ===== src/Team/Change/Refines.antt =====
-- `apply` makes the changes of `Change`, and no others.
use esec_vault.Base.{
  ◌≡◌, refl, false, ◌&&◌, ◌||◌, not, none, List, Text, ok, >>=-eq-ok, arith, text_eq_iff,
  require_that, fail_if, is_some, any_value, lookup, Option-cases, inl, inr, ◌==◌, length,
  is_sorted, text_lt, text_eq,
}
use mathlib.Core.Path.{subst}
use esec_vault.Team.Types.{
  Link, LinkType, init, member_add, member_update, member_remove, env_set, env_rename, machine_add,
  machine_remove, group_set, archive, unarchive, unknown_type,
}
use esec_vault.Team.State.{State, member, group, admin, admins}
use esec_vault.Team.External.{External}
use esec_vault.Team.Access.{decode_body, check_access, known_envs}
use esec_vault.Team.Valid.{valid_person, valid_reason, validate_machine, valid_group, root_pattern}
use esec_vault.Team.Envs.{set_envs, rename_env, apply_env_set}
use esec_vault.Team.Members.{
  apply_init, apply_member_add, apply_member_update, apply_member_remove, valid_predecessor,
  member_or,
}
use esec_vault.Team.Oidc.{validate_any}
use esec_vault.Team.Machines.{shares_key, apply_machine_add, apply_machine_remove}
use esec_vault.Team.Groups.{apply_group_set, change_group}
use esec_vault.Team.Step.{apply_type, apply_archive, apply_unarchive}
use esec_vault.Team.Change.{
  Change, created, member_added, member_updated, member_removed, env_changed, env_renamed,
  machine_added, machine_removed, group_added, group_changed, stopped, resumed,
}

ok-injective : {s t : State} → ok s ≡ ok t → s ≡ t
ok-injective h = ground arith

pub check_access-same :
    (s : State) (envs out : List Text) → check_access s false envs ≡ ok out → envs ≡ out
unfolding check_access
check_access-same s envs out h =
    let (_, sorted, h₁) = >>=-eq-ok (require_that (is_sorted text_lt envs) _) _ h in
    let (_, known, made) = >>=-eq-ok (known_envs s none envs) _ h₁ in ground arith

module _ (x : External) (s : State) (l : Link) (t : State) where
  apply_init-Change : apply_init x s l ≡ ok t → Change x s l init t
  unfolding apply_init
  apply_init-Change h =
      let (_, first, h₁) = >>=-eq-ok (require_that (l.seq == 1) _) _ h in
      let (b, _, h₂) = >>=-eq-ok (decode_body x.init l) _ h₁ in
      let (_, _, h₃) = >>=-eq-ok (valid_person b.creator) _ h₂ in
      let (_, _, h₄) = >>=-eq-ok (valid_predecessor x s b.predecessor) _ h₃ in
      let (v, made, h₅) = >>=-eq-ok (set_envs s b.envs l) _ h₄ in grind (arith, created)

  apply_member_add-Change : apply_member_add x s l ≡ ok t → Change x s l member_add t
  unfolding apply_member_add
  apply_member_add-Change h = grind (arith, member_added)

  apply_member_update-Change : apply_member_update x s l ≡ ok t → Change x s l member_update t
  unfolding apply_member_update
  apply_member_update-Change h =
      let (b, decoded, h₁) = >>=-eq-ok (decode_body x.member_update l) _ h in
      let (m, present, h₂) = >>=-eq-ok (member_or (member s b.user)) _ h₁ in
      let (envs, allowed, h₃) = >>=-eq-ok (check_access s b.admin b.envs) _ h₂ in
      let (_, kept, made) =
        >>=-eq-ok (fail_if (m.admin && not b.admin && (admins s == 1)) _) _ h₃ in
      subst (Change x s l member_update) (ok-injective made)
        (member_updated b m envs decoded (ground arith) allowed (ground arith))

  apply_member_remove-Change : apply_member_remove x s l ≡ ok t → Change x s l member_remove t
  unfolding apply_member_remove
  apply_member_remove-Change h =
      let (b, decoded, h₁) = >>=-eq-ok (decode_body x.member_remove l) _ h in
      let (_, _, h₂) = >>=-eq-ok (valid_reason x b.reason) _ h₁ in
      let (_, entitled, h₃) =
        >>=-eq-ok (require_that (text_eq b.user l.signer || admin s l.signer) _) _ h₂ in
      let (m, present, h₄) = >>=-eq-ok (member_or (member s b.user)) _ h₃ in
      let (_, kept, made) = >>=-eq-ok (fail_if (m.admin && (admins s == 1)) _) _ h₄ in
      subst (Change x s l member_remove) (ok-injective made)
        (member_removed b m decoded (ground arith) (ground arith) (ground arith))

  apply_env_set-Change : apply_env_set x s l ≡ ok t → Change x s l env_set t
  unfolding apply_env_set
  apply_env_set-Change h = grind (arith, env_changed)

  rename_env-Change : rename_env x s l ≡ ok t → Change x s l env_rename t
  unfolding rename_env
  rename_env-Change h = grind (arith, env_renamed)

  apply_machine_remove-Change : apply_machine_remove x s l ≡ ok t → Change x s l machine_remove t
  unfolding apply_machine_remove
  apply_machine_remove-Change h = grind (arith, machine_removed)

  apply_archive-Change : apply_archive x s l ≡ ok t → Change x s l archive t
  unfolding apply_archive
  apply_archive-Change h = grind (arith, stopped)

  apply_unarchive-Change : apply_unarchive x s l ≡ ok t → Change x s l unarchive t
  unfolding apply_unarchive
  apply_unarchive-Change h = grind (arith, resumed)

  apply_machine_add-Change : apply_machine_add x s l ≡ ok t → Change x s l machine_add t
  unfolding apply_machine_add
  apply_machine_add-Change h =
      let (b, decoded, h₁) = >>=-eq-ok (decode_body x.machine_add l) _ h in
      let (_, _, h₂) = >>=-eq-ok (validate_machine b.machine) _ h₁ in
      let (_, fresh, h₃) = >>=-eq-ok (fail_if (is_some (lookup b.machine.id s.machines)) _) _ h₂ in
      let (_, new_keys, h₄) =
        >>=-eq-ok (fail_if (any_value (shares_key b.machine) s.machines) _) _ h₃ in
      let (_, some_env, h₅) = >>=-eq-ok (fail_if (length b.envs == 0) _) _ h₄ in
      let (envs, allowed, h₆) = >>=-eq-ok (check_access s false b.envs) _ h₅ in
      let (_, _, made) = >>=-eq-ok (validate_any b.oidc) _ h₆ in
      let same = check_access-same s b.envs envs allowed in
      subst (Change x s l machine_add) (ok-injective made)
        (machine_added _ (ground arith) (ground arith) (cc (same, allowed)) refl)

  apply_group_set-Change : apply_group_set x s l ≡ ok t → Change x s l group_set t
  unfolding apply_group_set change_group
  apply_group_set-Change h =
      let (b, decoded, h₁) = >>=-eq-ok (decode_body x.group_set l) _ h in
      let (_, _, h₂) = >>=-eq-ok (valid_group x b.group) _ h₁ in
      let (_, _, h₃) = >>=-eq-ok (require_that (root_pattern b.root) _) _ h₂ in
      let (envs, allowed, made) = >>=-eq-ok (check_access s false b.envs) _ h₃ in
      let same = check_access-same s b.envs envs allowed in
      let own : check_access s false b.envs ≡ ok b.envs = cc (same, allowed) in
      elim (Option-cases (group s b.group)) [
        | inl absent ↦ group_added b t absent own (ground (arith, same))
        | inr (old, present) ↦
            let run : change_group s l b b.envs old ≡ ok t = ground (arith, same) in
            let (_, same_root, done) = >>=-eq-ok (require_that (text_eq old.root b.root) _) _ run in
            subst (Change x s l group_set) (ok-injective done)
              (group_changed b old present own (ground (arith, text_eq_iff old.root b.root)))
      ]

  pub apply_type-Change : (k : LinkType) → apply_type x k s l ≡ ok t → Change x s l k t
  unfolding apply_type
  apply_type-Change init h = apply_init-Change h
  apply_type-Change member_add h = apply_member_add-Change h
  apply_type-Change member_update h = apply_member_update-Change h
  apply_type-Change member_remove h = apply_member_remove-Change h
  apply_type-Change env_set h = apply_env_set-Change h
  apply_type-Change env_rename h = rename_env-Change h
  apply_type-Change machine_add h = apply_machine_add-Change h
  apply_type-Change machine_remove h = apply_machine_remove-Change h
  apply_type-Change group_set h = apply_group_set-Change h
  apply_type-Change archive h = apply_archive-Change h
  apply_type-Change unarchive h = apply_unarchive-Change h
  apply_type-Change unknown_type h = absurd (cc)

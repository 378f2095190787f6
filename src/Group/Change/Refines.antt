-- ===== src/Group/Change/Refines.antt =====
-- From `apply` of internal/team/group.go to the relation `Change`.
use esec_vault.Base.{
  [], ◌≡◌, refl, true, ◌&&◌, not, some, Text, ok, >>=-eq-ok, arith, require_that, fail_if, ◌==◌,
  length, text_eq,
}
use mathlib.Core.Path.{subst}
use esec_vault.Team.Valid.{valid_reason}
use esec_vault.Group.Types.{
  Link, LinkType, link_type, init, admin_add, admin_remove, machine_add, token_add, workload_add,
  workload_rekey, remove, key_rotate, access_add, access_remove, member_add, member_remove,
  unknown_type, Kind, machine, token, workload, Credential,
}
use esec_vault.Group.State.{State, active_in, active_admins, cred}
use esec_vault.Group.Valid.{join_pattern}
use esec_vault.Group.External.{External}
use esec_vault.Group.Creds.{
  decode_body, token_policy, add_cred, apply_machine_add, apply_token_add, apply_workload_add,
  apply_workload_rekey, apply_remove, apply_key_rotate,
}
use esec_vault.Group.Persons.{
  person_or, apply_init, apply_admin_add, apply_admin_remove, apply_member_add, apply_member_remove,
  apply_access_add, apply_access_remove,
}
use esec_vault.Group.Step.{is_init, apply_type, apply}
use esec_vault.Group.Change.{
  Change, added_kind, may_enroll, created, admin_added, admin_removed, member_added, member_removed,
  cred_added, workload_rekeyed, cred_removed, key_rotated, access_added, access_removed,
}

ok-injective : {s t : State} → ok s ≡ ok t → s ≡ t
ok-injective h = ground arith

module _ (x : External) (s : State) (l : Link) (t : State) where
  apply_init-Change : apply_init x s l ≡ ok t → Change x s l init t
  unfolding apply_init
  apply_init-Change h = grind (arith, created)

  apply_admin_add-Change : apply_admin_add x s l ≡ ok t → Change x s l admin_add t
  unfolding apply_admin_add
  apply_admin_add-Change h = grind (arith, admin_added)

  apply_admin_remove-Change : apply_admin_remove x s l ≡ ok t → Change x s l admin_remove t
  unfolding apply_admin_remove
  apply_admin_remove-Change h =
      let (b, decoded, h₁) = >>=-eq-ok (decode_body x.admin_remove l) _ h in
      let (_, _, h₂) = >>=-eq-ok (valid_reason x.team b.reason) _ h₁ in
      let (a, present, h₃) =
        >>=-eq-ok (person_or "%s is not an admin" (active_in b.user s.admins)) _ h₂ in
      let (_, kept, made) = >>=-eq-ok (fail_if (length (active_admins s) == 1) _) _ h₃ in
      subst (Change x s l admin_remove) (ok-injective made)
        (admin_removed b a (ground arith) (ground arith))

  apply_member_add-Change : apply_member_add x s l ≡ ok t → Change x s l member_add t
  unfolding apply_member_add
  apply_member_add-Change h = grind (arith, member_added)

  apply_member_remove-Change : apply_member_remove x s l ≡ ok t → Change x s l member_remove t
  unfolding apply_member_remove
  apply_member_remove-Change h = grind (arith, member_removed)

  apply_access_add-Change : apply_access_add x s l ≡ ok t → Change x s l access_add t
  unfolding apply_access_add
  apply_access_add-Change h = grind (arith, access_added)

  apply_access_remove-Change : apply_access_remove x s l ≡ ok t → Change x s l access_remove t
  unfolding apply_access_remove
  apply_access_remove-Change h = grind (arith, access_removed)

  apply_workload_rekey-Change : apply_workload_rekey x s l ≡ ok t → Change x s l workload_rekey t
  unfolding apply_workload_rekey
  apply_workload_rekey-Change h = grind (arith, workload_rekeyed)

  apply_remove-Change : apply_remove x s l ≡ ok t → Change x s l remove t
  unfolding apply_remove
  apply_remove-Change h = grind (arith, cred_removed)

  apply_key_rotate-Change : apply_key_rotate x s l ≡ ok t → Change x s l key_rotate t
  unfolding apply_key_rotate
  apply_key_rotate-Change h = grind (arith, key_rotated)

  add_cred-Change :
      (k : LinkType) (c : Credential) (kind : Kind) (join : Text)
      → added_kind k ≡ some kind
      → may_enroll s l kind c ≡ true
      → add_cred x s c kind join l ≡ ok t
      → Change x s l k t
  unfolding add_cred
  add_cred-Change k c kind join adds may h = grind (arith, cred_added)

  apply_machine_add-Change : apply_machine_add x s l ≡ ok t → Change x s l machine_add t
  unfolding apply_machine_add
  apply_machine_add-Change h =
      let (b, _, h₁) = >>=-eq-ok (decode_body x.machine_add l) _ h in
      let (_, _, h₂) =
        >>=-eq-ok (fail_if (not (text_eq b.join []) && not (join_pattern b.join)) _) _ h₁ in
      let (_, same, made) =
        >>=-eq-ok (require_that (token_policy (cred s l.signer) b.machine) _) _ h₂ in
      add_cred-Change machine_add b.machine machine b.join refl (ground arith) made

  apply_token_add-Change : apply_token_add x s l ≡ ok t → Change x s l token_add t
  unfolding apply_token_add
  apply_token_add-Change h =
      let (b, _, made) = >>=-eq-ok (decode_body x.token_add l) _ h in
      add_cred-Change token_add b.token token [] refl refl made

  apply_workload_add-Change : apply_workload_add x s l ≡ ok t → Change x s l workload_add t
  unfolding apply_workload_add
  apply_workload_add-Change h =
      let (b, _, made) = >>=-eq-ok (decode_body x.workload_add l) _ h in
      add_cred-Change workload_add b.workload workload [] refl refl made

  pub apply_type-Change : (k : LinkType) → apply_type x k s l ≡ ok t → Change x s l k t
  unfolding apply_type
  apply_type-Change init h = apply_init-Change h
  apply_type-Change admin_add h = apply_admin_add-Change h
  apply_type-Change admin_remove h = apply_admin_remove-Change h
  apply_type-Change machine_add h = apply_machine_add-Change h
  apply_type-Change token_add h = apply_token_add-Change h
  apply_type-Change workload_add h = apply_workload_add-Change h
  apply_type-Change workload_rekey h = apply_workload_rekey-Change h
  apply_type-Change remove h = apply_remove-Change h
  apply_type-Change key_rotate h = apply_key_rotate-Change h
  apply_type-Change access_add h = apply_access_add-Change h
  apply_type-Change access_remove h = apply_access_remove-Change h
  apply_type-Change member_add h = apply_member_add-Change h
  apply_type-Change member_remove h = apply_member_remove-Change h
  apply_type-Change unknown_type h = absurd (cc)

  -- Every link that `apply` accepts makes one of the changes of the relation Change, that of the
  -- link's type.
  pub group_apply-Change : apply x s l ≡ ok t → Change x s l (link_type l.typ) t
  unfolding apply
  group_apply-Change h =
      let (_, _, run) =
        >>=-eq-ok (fail_if ((l.seq == 1) && not (is_init (link_type l.typ))) _) _ h in
      apply_type-Change (link_type l.typ) run

-- ===== src/Team/Admins.antt =====
-- A project always has someone who can manage it.
use esec_vault.Base.{
  suc, ◌<◌, ◌≡◌, refl, Bool, true, false, ◌&&◌, some, none, Option, List, [], ◌∷◌, Text, ok,
  >>=-eq-ok, arith, lookup, insert, count_values, passes-le-count_values, count_values-insert_trade,
  count_values-update_all_same, wrapped, Dict, ◌⊎◌, inl, inr, fail_if, ltb, length,
}
use mathlib.Core.Path.{subst}
use esec_vault.Envelope.{Envelope}
use esec_vault.Team.Types.{max_links, Link, LinkType, Env, GroupSetBody}
use esec_vault.Team.State.{State, MemberState, member, admins, start}
use esec_vault.Team.External.{External, Chains}
use esec_vault.Team.Valid.{valid_project}
use esec_vault.Team.Envs.{rename_env_list, set_env}
use esec_vault.Team.Groups.{add_group}
use esec_vault.Team.Members.{new_member}
use esec_vault.Team.Step.{step, steps, may_apply, check_link, verify}
use esec_vault.Team.Frame.{step-Stepped, step_nil}
use esec_vault.Team.Change.{
  with_access, Change, created, member_added, member_updated, member_removed, env_changed,
  env_renamed, machine_added, machine_removed, group_added, group_changed, stopped, resumed,
}
use esec_vault.Team.Change.Refines.{apply_type-Change}

abbrev is_active_admin : MemberState → Bool
is_active_admin m = m.active && m.admin

pub member-lookup :
    (s : State) (user : Text) (m : MemberState)
    → member s user ≡ some m
    → (lookup user s.members ≡ some m) × (m.active ≡ true)
unfolding member
member-lookup s user m h = (ground arith, ground arith)

pub set_env-members :
    (s : State) (e : Env) (l : Link) (b : Bool) (t : State)
    → set_env s e l b ≡ ok t
    → t.members ≡ s.members
unfolding set_env
set_env-members s e l b t h = ground arith

pub add_group-members :
    (s : State) (l : Link) (b : GroupSetBody) (t : State)
    → add_group s l b b.envs ≡ ok t
    → t.members ≡ s.members
unfolding add_group
add_group-members s l b t h = ground arith

-- someone written as an active admin is one
insert-HasAdmin :
    (user : Text) (m : MemberState) (ms : Dict MemberState)
    → is_active_admin m ≡ true
    → 0 < count_values is_active_admin (insert user m ms)
insert-HasAdmin user m ms h = ground (
  arith,
  passes-le-count_values is_active_admin user ms,
  count_values-insert_trade is_active_admin user m ms,
)

module _ (x : External) (s : State) (l : Link) where
  Change-HasAdmin : (k : LinkType) (t : State) → Change x s l k t → 0 < admins s → 0 < admins t
  unfolding admins
  Change-HasAdmin k t (created b v first made) h =
      insert-HasAdmin b.creator.user (new_member b.creator true [] [] l) v.members refl
  Change-HasAdmin k t (member_added b envs decoded fresh ok_envs) h =
      let m = new_member b.member b.admin envs b.verified l in
      ground (arith, count_values-insert_trade is_active_admin b.member.user m s.members)
  Change-HasAdmin k t (member_updated b m envs decoded present ok_envs kept) h =
      let (there, active) = member-lookup s b.user m present in
      let m₂ = with_access m b.admin envs in
      ground (arith, count_values-insert_trade is_active_admin b.user m₂ s.members)
  Change-HasAdmin k t (member_removed b m decoded entitled present kept) h =
      let (there, active) = member-lookup s b.user m present in
      let m₂ : MemberState = record m { active = false; removed_seq = l.seq } in
      ground (arith, count_values-insert_trade is_active_admin b.user m₂ s.members)
  Change-HasAdmin k t (env_changed e v made) h = ground (arith, set_env-members s e l true v made)
  Change-HasAdmin k t (env_renamed b e there fresh) h =
      let renamed : Text → MemberState → MemberState =
        λ _ m. record m { envs = rename_env_list b m.envs } in
      ground (arith, count_values-update_all_same is_active_admin renamed s.members (λ _ _. refl))
  Change-HasAdmin k t (machine_added m fresh keys envs active) h = h
  Change-HasAdmin k t (machine_removed b m present) h = h
  Change-HasAdmin k t (group_added b v absent envs made) h =
      ground (arith, add_group-members s l b v made)
  Change-HasAdmin k t (group_changed b old present envs same) h = h
  Change-HasAdmin k t (stopped successor) h = h
  Change-HasAdmin k t (resumed was) h = h

  -- what the first link makes
  first-HasAdmin :
      (k : LinkType) (t : State)
      → Change x s l k t
      → l.seq ≡ 1
      → may_apply k s l ≡ ok tt
      → 0 < admins t
  unfolding may_apply admins
  first-HasAdmin k t (created b v first made) at allowed =
      insert-HasAdmin b.creator.user (new_member b.creator true [] [] l) v.members refl
  first-HasAdmin k t (member_added b envs d f o) at allowed = absurd (ground arith)
  first-HasAdmin k t (member_updated b m envs d p o kept) at allowed = absurd (ground arith)
  first-HasAdmin k t (member_removed b m d e p kept) at allowed = absurd (ground arith)
  first-HasAdmin k t (env_changed e v made) at allowed = absurd (ground arith)
  first-HasAdmin k t (env_renamed b e there fresh) at allowed = absurd (ground arith)
  first-HasAdmin k t (machine_added m fresh keys envs active) at allowed = absurd (ground arith)
  first-HasAdmin k t (machine_removed b m present) at allowed = absurd (ground arith)
  first-HasAdmin k t (group_added b v absent envs made) at allowed = absurd (ground arith)
  first-HasAdmin k t (group_changed b old present envs same) at allowed = absurd (ground arith)
  first-HasAdmin k t (stopped successor) at allowed = absurd (ground arith)
  first-HasAdmin k t (resumed was) at allowed = absurd (ground arith)

check_link-seq : (s : State) (l : Link) → check_link s l ≡ ok tt → s.seq ≡ 0 → l.seq ≡ 1
unfolding check_link
check_link-seq s l h z = ground arith

module _ (x : External) (chains : Chains) where
  step-HasAdmin :
      (s : State) (e : Envelope) (u : State)
      → step x chains s (some e) ≡ ok u
      → (s.seq ≡ 0) ⊎ (0 < admins s)
      → 0 < admins u
  unfolding admins
  step-HasAdmin s e u h before =
      let st = step-Stepped x chains s e u h in
      let change = apply_type-Change x s st.link st.applied _ st.run in
      let made : 0 < admins st.applied = elim before [
        | inl none_yet ↦
            first-HasAdmin x s st.link _ st.applied change
              (check_link-seq s st.link st.checked none_yet) st.allowed
        | inr some_admin ↦ Change-HasAdmin x s st.link _ st.applied change some_admin
      ] in
      rw st.result made

  steps-HasAdmin :
      (s : State) (es : List (Option Envelope)) (u : State)
      → steps x chains s es ≡ ok u
      → 0 < admins s
      → 0 < admins u
  unfolding steps
  steps-HasAdmin s [] u h before =
      let same : s ≡ u = ground arith in subst (λ v. 0 < admins v) same before
  steps-HasAdmin s (none ∷ es) u h before = absurd (ground (arith, step_nil x chains s))
  steps-HasAdmin s (some e ∷ es) u h before =
      let (t, one, rest) =
        >>=-eq-ok (wrapped "project chain link %d: %w" (step x chains s (some e))) _ h in
      let made : step x chains s (some e) ≡ ok t = ground arith in
      steps-HasAdmin t es u rest (step-HasAdmin s e t made (inr before))

  -- A project chain that is accepted and has a link gives a project with an active admin: neither a
  -- change of someone's role, nor a removal, nor a member who leaves can take the last one.
  pub verify-HasAdmin :
      (project : Text) (e : Option Envelope) (es : List (Option Envelope)) (u : State)
      → verify x chains project (e ∷ es) ≡ ok u
      → 0 < admins u
  unfolding verify steps
  verify-HasAdmin project none es u h = absurd (ground (arith, step_nil x chains (start project)))
  verify-HasAdmin project (some e) es u h =
      let (_, _, h₁) = >>=-eq-ok (valid_project x project) _ h in
      let (_, _, h₂) = >>=-eq-ok (fail_if (ltb max_links (suc (length es))) _) _ h₁ in
      let (t, one, rest) =
        >>=-eq-ok (wrapped "project chain link %d: %w" (step x chains (start project) (some e))) _
          h₂ in
      let made : step x chains (start project) (some e) ≡ ok t = ground arith in
      steps-HasAdmin t es u rest (step-HasAdmin (start project) e t made (inl refl))

-- ===== src/Group/Leavers.antt =====
-- About GroupExposures of internal/team/group.go, for who leaves a group.
use esec_vault.Base.{
  ◌≡◌, sym, ap, ◌∙◌, Bool, true, false, ◌&&◌, not, ◌⊎◌, inl, inr, Option, some, List, [], ◌∷◌, Text,
  codes, ok, arith, Dict, lookup, insert, lookup-insert, values_where, map, any, ltb, text_eq,
  Bool-cases,
}
use mathlib.Core.Path.{subst}
use esec_vault.Envelope.{Envelope}
use esec_vault.Chain.Types.{Time}
use esec_vault.Team.State as Project
use esec_vault.Team.State.{Exposure, EnvState, ProjectGroupState}
use esec_vault.Team.External.{Chains}
use esec_vault.Group.Types.{Link}
use esec_vault.Group.State.{State, PersonState, CredState, root, holds_key, admin, member, cred}
use esec_vault.Group.External.{External}
use esec_vault.Group.Persons.{ended}
use esec_vault.Group.Step.{step, verify}
use esec_vault.Group.Frame.{step-Stepped}
use esec_vault.Group.Named.{IsNamed, verify-IsNamed}
use esec_vault.Group.Exposed.{noted, IsDestroyed}
use esec_vault.Group.Removal.{
  reads, Removal, admin_gone, member_gone, cred_gone, gone_cred, Change-Removal,
}
use esec_vault.Group.Listed.{on_list, noted-by_env, noted-exposures_since}
use esec_vault.Group.InProject.{
  exposed, cred_exposure, person_exposure, cred_left, person_left, exposures_since, time_or_zero,
  env_exposures, group_exposures,
}

module _ {ℓ} {V : Type ℓ} (f : V → Exposure) (p : V → Bool) (h : Text) where
  noted-values_where :
      (m : Dict V) (k : Text) (v : V)
      → lookup k m ≡ some v
      → p v ≡ true
      → text_eq (f v).holder h ≡ true
      → noted h (map f (values_where p m)) ≡ true
  unfolding lookup values_where
  noted-values_where [] k v at left is = ground arith
  noted-values_where ((j, w) ∷ m) k v at left is = elim (Bool-cases (text_eq j k)) [
    | inl here ↦
        let same : w ≡ v = ground (arith, at, here) in
        let left' : p w ≡ true = ap p same ∙ left in
        let is' : text_eq (f w).holder h ≡ true =
          ap (λ (u : V). text_eq (f u).holder h) same ∙ is in
        ground (arith, left', is')
    | inr there ↦
        let rest = noted-values_where m k v (ground (arith, at, there)) left is in
        elim (Bool-cases (p w)) [
          | inl kept ↦ ground (arith, kept, rest)
          | inr dropped ↦ ground (arith, dropped, rest)
        ]
  ]

module _ (s : State) (h : Text) (since granted : Time) where
  admin-exposed :
      (a : PersonState)
      → lookup h s.admins ≡ some a
      → person_left since granted a ≡ true
      → text_eq a.person.user h ≡ true
      → noted h (exposures_since s since granted) ≡ true
  admin-exposed a at left is =
      let role = codes "admin" in
      let found =
        noted-values_where (person_exposure s role) (person_left since granted) h s.admins h a at
          left is in
      ground (arith, noted-exposures_since s h since granted, found)

  member-exposed :
      (m : PersonState)
      → lookup h s.members ≡ some m
      → person_left since granted m ≡ true
      → text_eq m.person.user h ≡ true
      → noted h (exposures_since s since granted) ≡ true
  member-exposed m at left is =
      let role = codes "member" in
      let found =
        noted-values_where (person_exposure s role) (person_left since granted) h s.members h m at
          left is in
      ground (arith, noted-exposures_since s h since granted, found)

  cred-exposed :
      (c : CredState)
      → lookup h s.creds ≡ some c
      → cred_left since granted c ≡ true
      → text_eq c.cred.id h ≡ true
      → noted h (exposures_since s since granted) ≡ true
  cred-exposed c at left is =
      let found =
        noted-values_where (cred_exposure s) (cred_left since granted) h s.creds h c at left is in
      ground (arith, noted-exposures_since s h since granted, found)

-- Who is listed after a removal: the exposures name them, or their keys were destroyed.
module _ (s : State) (l : Link) (h : Text) (since granted : Time) where
  Removal-exposed :
      (t : State)
      → Removal s l h t
      → exposed since granted l.ctime ≡ true
      → (noted h (exposures_since t since granted) ≡ true) ⊎ IsDestroyed t h
  Removal-exposed t (admin_gone user why a at is) late =
      let there : lookup h (insert user (ended a l) s.admins) ≡ some (ended a l) =
        ground (arith, at, lookup-insert user h (ended a l) s.admins) in
      inl (admin-exposed t h since granted (ended a l) there late is)
  Removal-exposed t (member_gone user why m at is) late =
      let there : lookup h (insert user (ended m l) s.members) ≡ some (ended m l) =
        ground (arith, at, lookup-insert user h (ended m l) s.members) in
      inl (member-exposed t h since granted (ended m l) there late is)
  Removal-exposed t (cred_gone b c why at is) late =
      let gone = gone_cred b c l in
      let there : lookup h (insert b.id gone s.creds) ≡ some gone =
        ground (arith, at, lookup-insert b.id h gone s.creds) in
      elim (Bool-cases b.destroyed) [
        | inl destroyed ↦ inr (gone, there, destroyed)
        | inr kept ↦ inl (
            cred-exposed t h since granted gone there
              (ap (λ (d : Bool). not d && exposed since granted l.ctime) kept ∙ late) is)
      ]

-- An environment whose key a project gave a group, and has not replaced, before the time.
pub record IsGiven (ps : Project.State) (s : State) (env : Text) (t : Time) : Type 0 where
  pub group : ProjectGroupState
  pub found : lookup s.group ps.groups ≡ some group
  pub active : (group.active && text_eq group.root (root s)) ≡ true
  pub gives : any (λ (e : Text). text_eq e env) group.envs ≡ true
  pub key : EnvState
  pub there : lookup env ps.envs ≡ some key
  pub since : ltb t key.since ≡ false
  pub granted : ltb t (time_or_zero (lookup env group.env_since)) ≡ false

given-on_list :
    (ps : Project.State) (s : State) (env h : Text) (t : Time) (given : IsGiven ps s env t)
    → noted h (exposures_since s given.key.since (time_or_zero (lookup env given.group.env_since)))
      ≡ true
    → on_list ps s env h ≡ true
unfolding group_exposures env_exposures
given-on_list ps s env h t given is = ground (
  arith,
  given.found,
  given.active,
  given.gives,
  given.there,
  is,
  noted-by_env ps s given.group env h given.group.envs [],
)

module _ (x : External) (chains : Chains) where
  step-exposed :
      (s : State) (e : Envelope) (u : State) (h : Text) (since granted : Time)
      → IsNamed s
      → step x chains s (some e) ≡ ok u
      → reads s h ≡ true
      → reads u h ≡ false
      → exposed since granted u.last_time ≡ true
      → (noted h (exposures_since u since granted) ≡ true) ⊎ IsDestroyed u h
  unfolding exposures_since holds_key admin member cred
  step-exposed s e u h since granted named made was gone late =
      let st = step-Stepped x chains s e u made in
      subst
        (λ (v : State).
          reads v h ≡ false
          → exposed since granted v.last_time ≡ true
          → (noted h (exposures_since v since granted) ≡ true) ⊎ IsDestroyed v h)
        (sym st.result)
        (λ lost now.
          Removal-exposed s st.link h since granted st.applied
            (Change-Removal x s st.link h _ st.applied st.change named was lost) now)
        gone late

  -- When an accepted link of a group takes the group's key from an admin, member, machine, token or
  -- workload, and a project has given the group an environment whose key is no newer than the link,
  -- then the project's exposures list them for that environment, unless the link says that the
  -- credential's keys were destroyed.
  pub group_step-on_list :
      (ps : Project.State) (group : Text) (es : List (Option Envelope)) (s : State) (e : Envelope)
      (u : State) (env h : Text)
      → verify x chains group es ≡ ok s
      → step x chains s (some e) ≡ ok u
      → reads s h ≡ true
      → reads u h ≡ false
      → IsGiven ps u env u.last_time
      → (on_list ps u env h ≡ true) ⊎ IsDestroyed u h
  unfolding exposed
  group_step-on_list ps group es s e u env h before made was gone given =
      let late : exposed given.key.since (time_or_zero (lookup env given.group.env_since))
            u.last_time
          ≡ true =
        ground (arith, given.since, given.granted) in
      let granted = time_or_zero (lookup env given.group.env_since) in
      let named = verify-IsNamed x chains group es s before in
      elim (step-exposed s e u h given.key.since granted named made was gone late) [
        | inl is ↦ inl (given-on_list ps u env h u.last_time given is)
        | inr destroyed ↦ inr destroyed
      ]

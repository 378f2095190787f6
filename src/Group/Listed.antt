-- ===== src/Group/Listed.antt =====
-- About GroupExposures of internal/team/group.go: who is listed for an environment.
use esec_vault.Base.{
  ◌≡◌, refl, ap, ◌∙◌, Bool, true, false, ◌&&◌, ◌||◌, inl, inr, Option, none, some, List, [], ◌∷◌,
  ◌++◌, Text, codes, arith, Dict, lookup, any_value, ◌↔◌, lookup-insert, values_where, map, any,
  any-append, text_eq, ltb, not, text_eq_iff, Bool-cases, Option-cases,
}
use esec_vault.Chain.Types.{Time, zero_time}
use esec_vault.Team.State as Project
use esec_vault.Team.State.{Exposure, EnvState, ProjectGroupState}
use esec_vault.Group.State.{State, PersonState, CredState, root}
use esec_vault.Group.Exposed.{noted}
use esec_vault.Group.Removal.{reads}
use esec_vault.Group.InProject.{
  exposed, cred_exposure, person_exposure, cred_left, person_left, exposures_since, time_or_zero,
  env_exposures, exposures_of, exposures_for, at_key, append_to, by_env, group_exposures,
}

pub noted-append :
    (h : Text) (xs ys : List Exposure) → noted h (xs ++ ys) ≡ (noted h xs || noted h ys)
noted-append h xs ys = any-append (λ (e : Exposure). text_eq e.holder h) xs ys

module _ (s : State) (h : Text) (since granted : Time) where
  abbrev creds_left : List Exposure
  creds_left = map (cred_exposure s) (values_where (cred_left since granted) s.creds)

  abbrev people_left : Text → Dict PersonState → List Exposure
  people_left role people =
      map (person_exposure s role) (values_where (person_left since granted) people)

  -- the exposures of each kind of entry, one after the other
  pub noted-exposures_since : noted h (exposures_since s since granted) ≡ (
      (noted h creds_left || noted h (people_left (codes "admin") s.admins))
      || noted h (people_left (codes "member") s.members))
  unfolding exposures_since
  noted-exposures_since =
      let admins = people_left (codes "admin") s.admins in
      let members = people_left (codes "member") s.members in
      noted-append h (creds_left ++ admins) members
      ∙ ap (λ (b : Bool). b || noted h members) (noted-append h creds_left admins)

module _ (ps : Project.State) (s : State) (g : ProjectGroupState) (env h : Text) where
  noted-append_to :
      (key : Text) (es : List Exposure) (out : Dict (List Exposure))
      → noted h (at_key (lookup env (append_to key es out)))
        ≡ (noted h (at_key (lookup env out)) || (text_eq key env && noted h es))
  unfolding append_to
  noted-append_to key [] out = ground arith
  noted-append_to key (e ∷ es) out = ground (
    arith,
    text_eq_iff key env,
    lookup-insert key env (at_key (lookup key out) ++ e ∷ es) out,
    noted-append h (at_key (lookup env out)) (e ∷ es),
  )

  -- who is listed for an environment: whoever was before, and whom the environment's round lists
  pub noted-by_env :
      (envs : List Text) (out : Dict (List Exposure))
      → noted h (at_key (lookup env (by_env ps s g envs out))) ≡ (
          noted h (at_key (lookup env out))
          || (any (λ (e : Text). text_eq e env) envs && noted h (env_exposures ps s g env)))
  unfolding by_env
  noted-by_env [] out = ground arith
  noted-by_env (e ∷ envs) out =
      let es = env_exposures ps s g e in
      let rest = noted-by_env envs (append_to e es out) in
      ground (arith, rest, noted-append_to e es out, text_eq_iff e env)

-- whether the project lists someone for an environment
abbrev pub on_list : Project.State → State → Text → Text → Bool
on_list ps s env h = noted h (at_key (lookup env (group_exposures ps s)))

module _ {ℓ} {V : Type ℓ} (f : V → Exposure) (p : V → Bool) (h : Text) where
  noted-map_values :
      (m : Dict V)
      → noted h (map f (values_where p m)) ≡ any_value (λ v. p v && text_eq (f v).holder h) m
  unfolding values_where any_value
  noted-map_values [] = refl
  noted-map_values ((j, w) ∷ m) = elim (Bool-cases (p w)) [
    | inl kept ↦ ground (arith, kept, noted-map_values m)
    | inr dropped ↦ ground (arith, dropped, noted-map_values m)
  ]

-- whether someone's place in the group ended at a time when a project's key was set and given
abbrev ended_late : Bool → Time → Time → Time → Bool
ended_late active since granted t = not active && (not (ltb t since) && not (ltb t granted))

-- an entry of someone's credential, whose keys were not destroyed, that ended late
abbrev cred_ended : Time → Time → Text → CredState → Bool
cred_ended since granted h c =
    (ended_late c.active since granted c.removed_time && not c.destroyed) && text_eq c.cred.id h

-- an entry of someone as an admin or member that ended late
abbrev person_ended : Time → Time → Text → PersonState → Bool
person_ended since granted h p =
    ended_late p.active since granted p.removed_time && text_eq p.person.user h

-- whether someone has left, as an admin, member, machine, token or workload, late enough to know an
-- environment's key
abbrev pub has_left : State → Time → Time → Text → Bool
has_left s since granted h =
    any_value (cred_ended since granted h) s.creds
    || any_value (person_ended since granted h) s.admins
    || any_value (person_ended since granted h) s.members

any_value-ext {ℓ} :
    {V : Type ℓ} (p q : V → Bool)
    → ((v : V) → p v ≡ q v)
    → (m : Dict V) → any_value p m ≡ any_value q m
unfolding any_value
any_value-ext p q same [] = refl
any_value-ext p q same ((j, v) ∷ m) = ground (arith, same v, any_value-ext p q same m)

module _ (s : State) (h : Text) (since granted : Time) where
  creds-left :
      noted h (map (cred_exposure s) (values_where (cred_left since granted) s.creds))
      ≡ any_value (cred_ended since granted h) s.creds
  unfolding exposed
  creds-left =
      noted-map_values (cred_exposure s) (cred_left since granted) h s.creds
      ∙ any_value-ext (λ (c : CredState). cred_left since granted c && text_eq c.cred.id h)
          (cred_ended since granted h) (λ c. ground arith) s.creds

  people-left :
      (role : Text) (people : Dict PersonState)
      → noted h (map (person_exposure s role) (values_where (person_left since granted) people))
        ≡ any_value (person_ended since granted h) people
  unfolding exposed
  people-left role people =
      noted-map_values (person_exposure s role) (person_left since granted) h people
      ∙ any_value-ext (λ (a : PersonState). person_left since granted a && text_eq a.person.user h)
          (person_ended since granted h) (λ a. ground arith) people

  noted-has_left : noted h (exposures_since s since granted) ≡ has_left s since granted h
  noted-has_left = ground (
    arith,
    noted-exposures_since s h since granted,
    creds-left,
    people-left (codes "admin") s.admins,
    people-left (codes "member") s.members,
  )

-- The time at which an environment was given to the group, or the zero time if that is not known.
pub data IsGivenAt : Option Time → Time → Type 0 where
  known : (t : Time) → IsGivenAt (some t) t
  unknown : IsGivenAt none zero_time

time_or_zero-IsGivenAt : (o : Option Time) → IsGivenAt o (time_or_zero o)
time_or_zero-IsGivenAt none = unknown
time_or_zero-IsGivenAt (some t) = known t

IsGivenAt-time_or_zero : (o : Option Time) (t : Time) → IsGivenAt o t → time_or_zero o ≡ t
IsGivenAt-time_or_zero _ _ (known t) = refl
IsGivenAt-time_or_zero _ _ unknown = refl

-- What puts someone who has no longer the group's key on the list of an environment.
pub record IsListed (ps : Project.State) (s : State) (env h : Text) : Type 0 where
  pub gone : reads s h ≡ false
  pub group : ProjectGroupState
  pub found : lookup s.group ps.groups ≡ some group
  pub active : group.active ≡ true
  pub same_root : group.root ≡ root s
  pub gives : any (λ (e : Text). text_eq e env) group.envs ≡ true
  pub key : EnvState
  pub there : lookup env ps.envs ≡ some key
  pub granted : Time
  pub given : IsGivenAt (lookup env group.env_since) granted
  pub left : has_left s key.since granted h ≡ true

module _ (ps : Project.State) (s : State) (env h : Text) where
  on_list-none : lookup s.group ps.groups ≡ none → on_list ps s env h ≡ false
  unfolding group_exposures lookup
  on_list-none missing =
      ap (λ (o : Option ProjectGroupState). noted h (at_key (lookup env (exposures_for ps s o))))
        missing

  for_group :
      (g : ProjectGroupState)
      → noted h (at_key (lookup env (exposures_for ps s (some g)))) ≡ (
          (g.active && text_eq g.root (root s))
          && (any (λ (e : Text). text_eq e env) g.envs && noted h (env_exposures ps s g env)))
  unfolding lookup
  for_group g = ground (arith, noted-by_env ps s g env h g.envs [])

  on_list-some :
      (g : ProjectGroupState)
      → lookup s.group ps.groups ≡ some g
      → on_list ps s env h ≡ (
          (g.active && text_eq g.root (root s))
          && (any (λ (e : Text). text_eq e env) g.envs && noted h (env_exposures ps s g env)))
  unfolding group_exposures
  on_list-some g found =
      ap (λ (o : Option ProjectGroupState). noted h (at_key (lookup env (exposures_for ps s o))))
        found
      ∙ for_group g

  no_env :
      (g : ProjectGroupState)
      → lookup env ps.envs ≡ none
      → noted h (env_exposures ps s g env) ≡ false
  unfolding env_exposures
  no_env g missing =
      ap
        (λ (o : Option EnvState).
          noted h (exposures_of s o (time_or_zero (lookup env g.env_since))))
        missing

  at_env :
      (g : ProjectGroupState) (key : EnvState)
      → lookup env ps.envs ≡ some key
      → noted h (env_exposures ps s g env)
        ≡ has_left s key.since (time_or_zero (lookup env g.env_since)) h
  unfolding env_exposures
  at_env g key there =
      ap
        (λ (o : Option EnvState).
          noted h (exposures_of s o (time_or_zero (lookup env g.env_since))))
        there
      ∙ noted-has_left s h key.since (time_or_zero (lookup env g.env_since))

  on_list-IsListed : on_list ps s env h ≡ true → reads s h ≡ false → IsListed ps s env h
  on_list-IsListed is gone = elim (Option-cases (lookup s.group ps.groups)) [
    | inl missing ↦ absurd (ground (arith, on_list-none missing, is))
    | inr (g, found) ↦ elim (Option-cases (lookup env ps.envs)) [
      | inl missing ↦ absurd (ground (arith, on_list-some g found, no_env g missing, is))
      | inr (key, there) ↦
          let value = on_list-some g found in
          record {
            gone = gone;
            group = g;
            found = found;
            active = ground (arith, value, is);
            same_root = ground (arith, value, is, text_eq_iff g.root (root s));
            gives = ground (arith, value, is);
            key = key;
            there = there;
            granted = time_or_zero (lookup env g.env_since);
            given = time_or_zero-IsGivenAt (lookup env g.env_since);
            left = ground (arith, value, is, at_env g key there);
          }
    ]
  ]

  IsListed-on_list : IsListed ps s env h → on_list ps s env h ≡ true
  IsListed-on_list is =
      let late : has_left s is.key.since (time_or_zero (lookup env is.group.env_since)) h ≡ true =
        ap (λ (t : Time). has_left s is.key.since t h)
          (IsGivenAt-time_or_zero (lookup env is.group.env_since) is.granted is.given)
        ∙ is.left in
      ground (
        arith,
        on_list-some is.group is.found,
        at_env is.group is.key is.there,
        is.active,
        text_eq_iff is.group.root (root s),
        is.same_root,
        is.gives,
        late,
      )

-- GroupExposures lists someone who does not have the group's key for an environment just when the
-- project has the group with this chain's root, active, gives it the environment, and they had a
-- place in the group, as an admin or member, or as a credential whose keys were not destroyed, that
-- ended no earlier than the environment's key was set and given to the group.
pub on_list_iff :
    (ps : Project.State) (s : State) (env h : Text)
    → ((on_list ps s env h ≡ true) × (reads s h ≡ false)) ↔ IsListed ps s env h
on_list_iff ps s env h =
    (λ is. on_list-IsListed ps s env h is.0 is.1, λ is. (IsListed-on_list ps s env h is, is.gone))

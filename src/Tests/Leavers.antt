-- ===== src/Tests/Leavers.antt =====
-- A toy project that gives its environment to the group of `Fleet`, and who is listed there.
use esec_vault.Base.{
  ◌≡◌, ◌⊎◌, ◌↔◌, false, refl, true, false, [], ◌∷◌, codes, ok, insert, take, Result, err,
}
use esec_vault.Team.Types.{Person}
use esec_vault.Team.State as Project
use esec_vault.Group.Types.{AdminAddBody}
use esec_vault.Group.State.{State, root, holds_key}
use esec_vault.Group.External.{External}
use esec_vault.Group.Persons.{new_person, apply_admin_add}
use esec_vault.Group.Exposed.{IsDestroyed}
use esec_vault.Group.InProject.{
  exposed, exposures_since, env_exposures, append_to, by_env, group_exposures,
}
use esec_vault.Group.Listed.{on_list, on_list_iff, IsListed}
use esec_vault.Group.Removal.{reads}
use esec_vault.Group.Leavers.{IsGiven, group_step-on_list}
use esec_vault.Tests.Toy.{at_hour, table}
use esec_vault.Tests.Project.{chains, alice}
use esec_vault.Tests.Fleet.{fleet, group, all_links, state, envelope₄, link₁}
use esec_vault.Tests.Group.{runs, verified₃, step₄, lost₄}

abbrev project : Project.State
project = record (Project.start (codes "app")) {
  groups =
      insert group
        (record {
          group = group;
          root = root (state 4);
          envs = codes "dev" ∷ codes "prod" ∷ [];
          active = true;
          added_by = codes "alice";
          added_seq = 2;
          since = at_hour 2;
          removed_seq = 0;
          env_since = insert (codes "prod") (at_hour 2) [];
        })
        [];
  envs =
      insert (codes "prod")
        (record {
          env = record { name = codes "prod"; public_key = [] };
          seq = 1;
          since = at_hour 1;
          retired = [];
          exposed = [];
        })
        [];
}

given : IsGiven project (state 4) (codes "prod") (state 4).last_time
unfolding runs exposed root
given = record {
  group = _;
  found = refl;
  active = refl;
  gives = refl;
  key = _;
  there = refl;
  since = refl;
  granted = refl;
}

group_step-on_list_example :
    (on_list project (state 4) (codes "prod") (codes "m_bbbbbbbb") ≡ true)
    ⊎ IsDestroyed (state 4) (codes "m_bbbbbbbb")
group_step-on_list_example =
    group_step-on_list fleet chains project group (take 3 all_links) (state 3) envelope₄ (state 4)
      (codes "prod") (codes "m_bbbbbbbb") verified₃ step₄ lost₄.0 lost₄.1 given

on_list_iff_example :
    ((on_list project (state 4) (codes "prod") (codes "m_bbbbbbbb") ≡ true)
      × (reads (state 4) (codes "m_bbbbbbbb") ≡ false))
    ↔ IsListed project (state 4) (codes "prod") (codes "m_bbbbbbbb")
on_list_iff_example = on_list_iff project (state 4) (codes "prod") (codes "m_bbbbbbbb")

-- The removed machine is listed for the environment that the project has, and the token, which is
-- still active, is not.
listed₄ :
    (on_list project (state 4) (codes "prod") (codes "m_bbbbbbbb") ≡ true)
    × (on_list project (state 4) (codes "dev") (codes "m_bbbbbbbb") ≡ false)
    × (on_list project (state 4) (codes "prod") (codes "t_aaaaaaaa") ≡ false)
unfolding runs root exposed exposures_since env_exposures append_to by_env group_exposures
listed₄ = (refl, refl, refl)

abbrev bob : Person
bob = record { user = codes "gh:43"; login = codes "bob-gh"; root = alice.root }

abbrev promotion : AdminAddBody
promotion = record { admin = bob; verified = codes "account_key" }

-- the group with bob as a member, and as an admin
abbrev with_bob : State
with_bob = record (state 3) {
  members = insert bob.user (new_person bob (codes "account_key") link₁) [];
}

abbrev promoting : External
promoting = record fleet { admin_add = table (promotion ∷ []) }

abbrev after : Result State → State
after (ok t) = t
after (err e) = with_bob

abbrev promoted : State
promoted = after (apply_admin_add promoting with_bob (record link₁ { ctime = at_hour 4 }))

-- A member who becomes an admin is listed as someone who was removed, though they hold the group's
-- key and nobody is noted as having lost it.
promoted_listed :
    (apply_admin_add promoting with_bob (record link₁ { ctime = at_hour 4 }) ≡ ok promoted)
    × (holds_key promoted bob.user ≡ true)
    × (promoted.key_exposed ≡ [])
    × (on_list project promoted (codes "prod") bob.user ≡ true)
unfolding runs root exposed exposures_since env_exposures append_to by_env group_exposures
    apply_admin_add
promoted_listed = (refl, refl, refl, refl)

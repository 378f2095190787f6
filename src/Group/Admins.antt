-- ===== src/Group/Admins.antt =====
-- The admins of a group, over a whole chain of internal/team/group.go (activeAdmins, setAdmins).
use esec_vault.Base.{
  ℕ, suc, ◌<◌, ◌≡◌, refl, sym, ◌∙◌, ap, Bool, true, false, some, none, Option, List, [], ◌∷◌, Text,
  ok, >>=-eq-ok, arith, insert, Dict, count_values, values_where, passes-le-count_values,
  count_values-insert_trade, wrapped, fail_if, ltb, ◌==◌, length, sort, insert_sorted,
}
use mathlib.Core.Path.{subst}
use esec_vault.Envelope.{Envelope}
use esec_vault.Team.Types as TeamTypes
use esec_vault.Team.Valid.{valid_group}
use esec_vault.Team.External.{Chains}
use esec_vault.Group.Types.{Link, LinkType, init, GroupKey, Kind}
use esec_vault.Group.State.{
  State, PersonState, active_people, active_admins, active_in, by_login, start,
}
use esec_vault.Group.External.{External}
use esec_vault.Group.Creds.{set_key, retire}
use esec_vault.Group.Persons.{new_person, ended}
use esec_vault.Group.Step.{is_init, step, steps, verify, check_link}
use esec_vault.Group.Frame.{step-Stepped, step_nil, steps-keep}
use esec_vault.Group.Change.{
  Change, added_kind, created, admin_added, admin_removed, member_added, member_removed, cred_added,
  workload_rekeyed, cred_removed, key_rotated, access_added, access_removed,
}

-- Sorting keeps the number of items.
module _ {ℓ} {A : Type ℓ} (less : A → A → Bool) where
  length-insert_sorted : (a : A) (xs : List A) → length (insert_sorted less a xs) ≡ suc (length xs)
  unfolding insert_sorted
  length-insert_sorted a [] = refl
  length-insert_sorted a (b ∷ xs) = ground (arith, length-insert_sorted a xs)

  pub length-sort : (xs : List A) → length (sort less xs) ≡ length xs
  unfolding sort
  length-sort [] = refl
  length-sort (a ∷ xs) = ground (arith, length-insert_sorted a (sort less xs), length-sort xs)

pub length-values_where :
    {V : Type 0} (p : V → Bool) (m : Dict V) → length (values_where p m) ≡ count_values p m
unfolding values_where count_values
length-values_where p [] = refl
length-values_where p ((k, v) ∷ m) = ground (arith, length-values_where p m)

abbrev is_active : PersonState → Bool
is_active p = p.active

length-active_admins : (s : State) → length (active_admins s) ≡ count_values is_active s.admins
unfolding active_admins active_people
length-active_admins s =
    length-sort by_login (values_where is_active s.admins) ∙ length-values_where is_active s.admins

-- what a new group key leaves of the group
pub set_key-result :
    (s : State) (k : GroupKey) (l : Link) (t : State)
    → set_key s k l ≡ ok t
    → t ≡ record s { retired = retire s; key = k; key_since = l.ctime; key_exposed = [] }
unfolding set_key
set_key-result s k l t h = ground arith

insert-has_active :
    (user : Text) (p : PersonState) (m : Dict PersonState)
    → p.active ≡ true
    → 0 < count_values is_active (insert user p m)
insert-has_active user p m h =
    ground
      (arith, count_values-insert_trade is_active user p m, passes-le-count_values is_active user m)

insert-lost_active :
    (user : Text) (a p : PersonState) (m : Dict PersonState)
    → active_in user m ≡ some a
    → (count_values is_active m == 1) ≡ false
    → 0 < count_values is_active (insert user p m)
insert-lost_active user a p m present kept = ground (
  arith,
  present,
  count_values-insert_trade is_active user p m,
  passes-le-count_values is_active user m,
)

added_kind-not_init : (k : LinkType) (kind : Kind) → added_kind k ≡ some kind → is_init k ≡ false
added_kind-not_init init kind h = cc
added_kind-not_init _ kind h = refl

module _ (x : External) where
  -- after any link but a first one
  Change-HasAdmin :
      (s : State) (l : Link) (k : LinkType) (t : State)
      → Change x s l k t
      → 0 < count_values is_active s.admins
      → 0 < count_values is_active t.admins
  Change-HasAdmin s l k t (created b v at first made) before =
      insert-has_active b.creator.user (new_person b.creator [] l) v.admins refl
  Change-HasAdmin s l k t (admin_added b members other done) before =
      insert-has_active b.admin.user (new_person b.admin b.verified l) s.admins refl
  Change-HasAdmin s l k t (admin_removed b a present kept) before =
      insert-lost_active b.user a (ended a l) s.admins present
        (sym (ap (λ (n : ℕ). n == 1) (length-active_admins s)) ∙ kept)
  Change-HasAdmin s l k t (member_added b decoded other) before = before
  Change-HasAdmin s l k t (member_removed b m why present may) before = before
  Change-HasAdmin s l _ t (cred_added k c kind join adds may fresh keys group) before = before
  Change-HasAdmin s l k t (workload_rekeyed id key c present is) before = before
  Change-HasAdmin s l k t (cred_removed b c decoded present) before = before
  Change-HasAdmin s l k _ (key_rotated key t version made) before =
      subst (λ (v : State). 0 < count_values is_active v.admins)
        (sym (set_key-result s key l t made)) before
  Change-HasAdmin s l k t (access_added project root fresh) before = before
  Change-HasAdmin s l k t (access_removed project) before = before

  -- a first link makes an admin
  first-HasAdmin :
      (s : State) (l : Link) (k : LinkType) (t : State)
      → Change x s l k t
      → is_init k ≡ true
      → 0 < count_values is_active t.admins
  first-HasAdmin s l k t (created b v at first made) is =
      insert-has_active b.creator.user (new_person b.creator [] l) v.admins refl
  first-HasAdmin s l _ t (cred_added k c kind join adds may fresh keys group) is =
      absurd (ground (arith, added_kind-not_init k kind adds))
  first-HasAdmin s l k t _ is = absurd (ground arith)

check_link-seq : (s : State) (l : Link) → check_link s l ≡ ok tt → s.seq ≡ 0 → l.seq ≡ 1
unfolding check_link
check_link-seq s l h z = ground arith

module _ (x : External) (chains : Chains) where
  step-HasAdmin :
      (s : State) (e : Envelope) (u : State)
      → step x chains s (some e) ≡ ok u
      → 0 < length (active_admins s)
      → 0 < length (active_admins u)
  unfolding active_admins
  step-HasAdmin s e u h before =
      let st = step-Stepped x chains s e u h in
      let after =
        Change-HasAdmin x s st.link _ st.applied st.change
          (omega (arith, before, length-active_admins s)) in
      rw st.result (omega (arith, after, length-active_admins st.applied))

  first_step-HasAdmin :
      (s : State) (e : Envelope) (u : State)
      → step x chains s (some e) ≡ ok u
      → s.seq ≡ 0
      → 0 < length (active_admins u)
  unfolding active_admins
  first_step-HasAdmin s e u h none_yet =
      let st = step-Stepped x chains s e u h in
      let at = check_link-seq s st.link st.checked none_yet in
      let after =
        first-HasAdmin x s st.link _ st.applied st.change (ground (arith, at, st.first_is_init)) in
      rw st.result (omega (arith, after, length-active_admins st.applied))

  -- A group chain that is accepted and has a link gives a group with an active admin: no later link
  -- takes the last one.
  pub group_verify-HasAdmin :
      (group : Text) (e : Option Envelope) (es : List (Option Envelope)) (u : State)
      → verify x chains group (e ∷ es) ≡ ok u
      → 0 < length (active_admins u)
  unfolding verify steps
  group_verify-HasAdmin group none es u h = absurd (ground (arith, step_nil x chains (start group)))
  group_verify-HasAdmin group (some e) es u h =
      let (_, _, h₁) = >>=-eq-ok (valid_group x.team group) _ h in
      let (_, _, h₂) = >>=-eq-ok (fail_if (ltb TeamTypes.max_links (suc (length es))) _) _ h₁ in
      let (t, one, rest) =
        >>=-eq-ok (wrapped "group chain link %d: %w" (step x chains (start group) (some e))) _ h₂ in
      let made : step x chains (start group) (some e) ≡ ok t = ground arith in
      steps-keep x chains (λ v. 0 < length (active_admins v)) step-HasAdmin t es u rest
        (first_step-HasAdmin (start group) e t made refl)

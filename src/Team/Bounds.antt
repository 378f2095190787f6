-- ===== src/Team/Bounds.antt =====
-- How large a project and its chain can become.
use esec_vault.Base.{
  ◌+◌, ◌<◌, ◌≤◌, ◌≡◌, ◌^◌, refl, some, none, Option, List, [], ◌∷◌, Text, ok, arith, >>=-eq-ok,
  length, length-append, wrapped, fail_if, ltb,
}
use mathlib.Core.Path.{subst}
use esec_vault.Envelope.{Envelope, hash}
use esec_vault.Team.Types.{Link, max_links, max_members, max_machines, max_envs, max_project_groups}
use esec_vault.Team.State.{State, start}
use esec_vault.Team.Valid.{valid_project}
use esec_vault.Team.External.{External, Chains}
use esec_vault.Team.Step.{check_link, check_size, step, steps, verify}
use esec_vault.Team.Frame.{step-Stepped, step_nil}
use esec_vault.Team.Change.Refines.{apply_type-Change}
use esec_vault.Team.Change.Frame.{Change-SameFrame}

-- One hash and one link for each position, and bounded numbers of members, machines, environments
-- and groups.
pub record IsBounded (s : State) : Type 0 where
  pub hashes : length s.hashes ≡ s.seq
  pub links : length s.links ≡ s.seq
  pub members : length s.members ≤ max_members
  pub machines : length s.machines ≤ max_machines
  pub envs : length s.envs ≤ max_envs
  pub groups : length s.groups ≤ max_project_groups

check_link-seq :
    (s : State) (l : Link) → check_link s l ≡ ok tt → s.seq + 1 < 2 ^ 64 → l.seq ≡ s.seq + 1
unfolding check_link
check_link-seq s l h small = ground arith

module _ (x : External) (chains : Chains) where
  step-IsBounded :
      (s : State) (e : Envelope) (u : State)
      → s.seq + 1 < 2 ^ 64
      → step x chains s (some e) ≡ ok u
      → IsBounded s
      → IsBounded u × (u.seq ≡ s.seq + 1)
  unfolding check_size
  step-IsBounded s e u small h b =
      let st = step-Stepped x chains s e u h in
      let l = st.link in
      let kept =
        Change-SameFrame x s l _ st.applied (apply_type-Change x s l st.applied _ st.run) in
      let at = check_link-seq s l st.checked small in
      let hashes = length-append st.applied.hashes (hash x.keys.crypto e ∷ []) in
      let links = length-append st.applied.links (l ∷ []) in
      let sized = st.sized in
      rw st.result (
        record {
          hashes = ground (arith, hashes, kept, at, b);
          links = ground (arith, links, kept, at, b);
          members = ground (arith, sized);
          machines = ground (arith, sized);
          envs = ground (arith, sized);
          groups = ground (arith, sized);
        },
        at,
      )

  steps-IsBounded :
      (s : State) (es : List (Option Envelope)) (u : State)
      → s.seq + length es < 2 ^ 64
      → steps x chains s es ≡ ok u
      → IsBounded s
      → IsBounded u × (u.seq ≡ s.seq + length es)
  unfolding steps
  steps-IsBounded s [] u small h b =
      let same : s ≡ u = ground arith in
      subst (λ v. IsBounded v × (v.seq ≡ s.seq + 0)) same (b, omega arith)
  steps-IsBounded s (none ∷ es) u small h b = absurd (ground (arith, step_nil x chains s))
  steps-IsBounded s (some e ∷ es) u small h b =
      let (t, one, rest) =
        >>=-eq-ok (wrapped "project chain link %d: %w" (step x chains s (some e))) _ h in
      let made : step x chains s (some e) ≡ ok t = ground arith in
      let (bt, at) = step-IsBounded s e t (omega arith) made b in
      let (bu, end) = steps-IsBounded t es u (omega arith) rest bt in (bu, omega arith)

  -- Every project chain that is accepted has at most max_links links and gives a project at the
  -- position of its length, with one hash and one link for each position and at most max_members
  -- members, max_machines machines, max_envs environments and max_project_groups groups, those that
  -- are no longer active included.
  pub verify-IsBounded :
      (project : Text) (es : List (Option Envelope)) (u : State)
      → verify x chains project es ≡ ok u
      → IsBounded u × (u.seq ≡ length es) × (length es ≤ max_links)
  unfolding verify
  verify-IsBounded project es u h =
      let (_, _, h₁) = >>=-eq-ok (valid_project x project) _ h in
      let (_, short, h₂) = >>=-eq-ok (fail_if (ltb max_links (length es)) _) _ h₁ in
      let few : length es ≤ 10000 = ground arith in
      let (b, at) = steps-IsBounded (start project) es u (omega arith) h₂ (record {
        hashes = refl;
        links = refl;
        members = omega arith;
        machines = omega arith;
        envs = omega arith;
        groups = omega arith;
      }) in
      (b, omega arith, few)

-- ===== src/Team/Change/Frame.antt =====
-- What no change of a project touches: its name, position, hashes, links and signers' positions.
use esec_vault.Base.{◌≡◌, Bool, true, false, List, [], ◌∷◌, ok, arith, >>=-eq-ok}
use esec_vault.Team.Types.{Link, LinkType, Env, GroupSetBody}
use esec_vault.Team.State.{State}
use esec_vault.Team.External.{External}
use esec_vault.Team.Envs.{set_env, set_envs}
use esec_vault.Team.Groups.{add_group}
use esec_vault.Team.Change.{
  Change, created, member_added, member_updated, member_removed, env_changed, env_renamed,
  machine_added, machine_removed, group_added, group_changed, stopped, resumed,
}

pub record SameFrame (s t : State) : Type 0 where
  pub project : t.project ≡ s.project
  pub seq : t.seq ≡ s.seq
  pub hashes : t.hashes ≡ s.hashes
  pub links : t.links ≡ s.links
  pub signer_seqs : t.signer_seqs ≡ s.signer_seqs

set_env-SameFrame :
    (s : State) (e : Env) (l : Link) (b : Bool) (t : State) → set_env s e l b ≡ ok t → SameFrame s t
unfolding set_env
set_env-SameFrame s e l b t h = ground arith

set_envs-SameFrame :
    (s : State) (es : List Env) (l : Link) (t : State) → set_envs s es l ≡ ok t → SameFrame s t
unfolding set_envs
set_envs-SameFrame s [] l t h = ground arith
set_envs-SameFrame s (e ∷ es) l t h =
    let (v, one, rest) = >>=-eq-ok (set_env s e l false) _ h in
    ground (arith, set_env-SameFrame s e l false v one, set_envs-SameFrame v es l t rest)

add_group-SameFrame :
    (s : State) (l : Link) (b : GroupSetBody) (t : State)
    → add_group s l b b.envs ≡ ok t
    → SameFrame s t
unfolding add_group
add_group-SameFrame s l b t h = ground arith

module _ (x : External) (s : State) (l : Link) where
  pub Change-SameFrame : (k : LinkType) (t : State) → Change x s l k t → SameFrame s t
  Change-SameFrame k t (created b v first made) =
      ground (arith, set_envs-SameFrame s b.envs l v made)
  Change-SameFrame k t (env_changed e v made) = set_env-SameFrame s e l true t made
  Change-SameFrame k t (group_added b v absent envs made) = add_group-SameFrame s l b t made
  Change-SameFrame k t (member_added b envs d f o) = ground arith
  Change-SameFrame k t (member_updated b m envs d p o kept) = ground arith
  Change-SameFrame k t (member_removed b m d e p kept) = ground arith
  Change-SameFrame k t (env_renamed b e there fresh) = ground arith
  Change-SameFrame k t (machine_added m fresh keys envs active) = ground arith
  Change-SameFrame k t (machine_removed b m present) = ground arith
  Change-SameFrame k t (group_changed b old present envs same) = ground arith
  Change-SameFrame k t (stopped successor) = ground arith
  Change-SameFrame k t (resumed was) = ground arith

-- ===== src/Team/Archived.antt =====
-- An archived project stands still.
use esec_vault.Base.{
  ◌≡◌, ◌≢◌, refl, sym, ap, ◌∙◌, true, false, some, Text, ok, arith, lookup, lookup-insert,
  text_eq_iff,
}
use esec_vault.Envelope.{Envelope}
use esec_vault.Team.Types.{Link, LinkType, link_type, unarchive}
use esec_vault.Team.State.{State, MemberState, member}
use esec_vault.Team.External.{External, Chains}
use esec_vault.Team.Step.{may_apply, peek_link, step}
use esec_vault.Team.Frame.{step-Stepped}
use esec_vault.Team.Scope.{key_of, expose_where-key}
use esec_vault.Team.Change.{
  Change, created, member_added, member_updated, member_removed, env_changed, env_renamed,
  machine_added, machine_removed, group_added, group_changed, stopped, resumed,
}
use esec_vault.Team.Change.Refines.{apply_type-Change}

-- Still archived, with the same environment keys, machines and groups, and no member but those who
-- were there, with the access they had.
pub record IsFrozen (s t : State) : Type 0 where
  pub archived : t.archived ≡ true
  pub same_keys : (n : Text) → key_of (lookup n t.envs) ≡ key_of (lookup n s.envs)
  pub same_machines : t.machines ≡ s.machines
  pub same_groups : t.groups ≡ s.groups
  pub no_member : (user : Text) (m : MemberState) → member t user ≡ some m → member s user ≡ some m

module _ (x : External) (s : State) (l : Link) where
  Change-IsFrozen :
      (k : LinkType) (t : State)
      → Change x s l k t
      → s.archived ≡ true
      → may_apply k s l ≡ ok tt
      → k ≢ unarchive
      → IsFrozen s t
  unfolding may_apply member
  Change-IsFrozen k t (member_removed b m decoded entitled present kept) stop allowed other =
      let w : MemberState = record m { active = false; removed_seq = l.seq } in
      record {
        archived = stop;
        same_keys = λ n. expose_where-key n _ _ _ _ _ s.envs;
        same_machines = refl;
        same_groups = refl;
        no_member = λ user m₂ there.
            ground (arith, there, lookup-insert b.user user w s.members, text_eq_iff b.user user);
      }
  Change-IsFrozen k t (resumed was) stop allowed other = absurd (other refl)
  Change-IsFrozen k t (created b v first made) stop allowed other = absurd (ground arith)
  Change-IsFrozen k t (member_added b envs d f o) stop allowed other = absurd (ground arith)
  Change-IsFrozen k t (member_updated b m e d p o kept) stop allowed other = absurd (ground arith)
  Change-IsFrozen k t (env_changed e v made) stop allowed other = absurd (ground arith)
  Change-IsFrozen k t (env_renamed b e there fresh) stop allowed other = absurd (ground arith)
  Change-IsFrozen k t (machine_added m f keys envs on) stop allowed other = absurd (ground arith)
  Change-IsFrozen k t (machine_removed b m present) stop allowed other = absurd (ground arith)
  Change-IsFrozen k t (group_added b v a envs made) stop allowed other = absurd (ground arith)
  Change-IsFrozen k t (group_changed b old p e same) stop allowed other = absurd (ground arith)
  Change-IsFrozen k t (stopped successor) stop allowed other = absurd (ground arith)

ok-injective : {k l : Link} → ok k ≡ ok l → k ≡ l
ok-injective h = ground arith

-- While a project is archived, an accepted link that does not end that leaves it archived, with the
-- same environment keys, machines and groups, and with no member but those who were there, as they
-- were.
pub step-IsFrozen :
    (x : External) (chains : Chains) (s : State) (e : Envelope) (l : Link) (u : State)
    → step x chains s (some e) ≡ ok u
    → peek_link x e ≡ ok l
    → s.archived ≡ true
    → link_type l.typ ≢ unarchive
    → IsFrozen s u
unfolding member
step-IsFrozen x chains s e l u h read stop other =
    let st = step-Stepped x chains s e u h in
    let same : st.link ≡ l = ok-injective (sym st.read ∙ read) in
    let change = apply_type-Change x s st.link st.applied (link_type st.link.typ) st.run in
    let frozen =
      Change-IsFrozen x s st.link (link_type st.link.typ) st.applied change stop st.allowed
        (λ ends. other (ap (λ (k : Link). link_type k.typ) (sym same) ∙ ends)) in
    rw st.result (record {
      archived = frozen.archived;
      same_keys = frozen.same_keys;
      same_machines = frozen.same_machines;
      same_groups = frozen.same_groups;
      no_member = frozen.no_member;
    })

-- ===== src/Team/Exposed.antt =====
-- Whoever loses access to an environment is noted as someone who may still hold its key.
use esec_vault.Base.{
  ℕ, ◌≡◌, ◌≢◌, refl, sym, ap, Bool, true, false, ◌&&◌, not, some, none, List, [], ◌∷◌, Text, ok,
  arith, if◌then◌else◌, lookup, insert, lookup-insert, lookup-update_all, text_eq, text_eq_iff,
  text_eq_refl, ◌∙◌, >>=-eq-ok, Dict, Bool-cases, inl, inr, get_last?, get_last?-append,
}
use esec_vault.Envelope.{Envelope}
use esec_vault.Team.Types.{Link, LinkType, link_type, env_rename, Env}
use esec_vault.Team.State.{State, EnvState, MemberState, Exposure, if_active, member, member_has}
use esec_vault.Team.External.{External, Chains}
use esec_vault.Team.Access.{expose_where, exposed_to, access_removed}
use esec_vault.Team.Envs.{set_env, set_envs}
use esec_vault.Team.Admins.{set_env-members, add_group-members, member-lookup}
use esec_vault.Team.Members.{new_member}
use esec_vault.Team.Step.{peek_link, step}
use esec_vault.Team.Frame.{step-Stepped}
use esec_vault.Team.Change.{
  Change, with_access, why_removed, created, member_added, member_updated, member_removed,
  env_changed, env_renamed, machine_added, machine_removed, group_added, group_changed, stopped,
  resumed,
}
use esec_vault.Team.Change.Refines.{apply_type-Change}

abbrev access_in : Dict MemberState → Text → Text → Bool
access_in ms user n = elim (if_active (λ m. m.active) (lookup user ms)) [
  | none ↦ false
  | some m ↦ member_has m n
]

-- whether an active member of the project reads the environment
unfoldable pub reads : State → Text → Text → Bool
unfolding member_has
reads s user n = access_in s.members user n

-- The last exposure of the environment is the person's, at the position.
pub record IsNoted (t : State) (holder n : Text) (seq : ℕ) : Type 0 where
  pub entry : EnvState
  pub found : lookup n t.envs ≡ some entry
  pub exposure : Exposure
  pub last : get_last? entry.exposed ≡ some exposure
  pub of_holder : exposure.holder ≡ holder
  pub at_seq : exposure.seq ≡ seq

exposed_to-noted :
    (holder name : Text) (l : Link) (why : Text) (e : EnvState)
    → (x : Exposure) × (get_last? (exposed_to holder name l why e).exposed ≡ some x)
      × (x.holder ≡ holder)
      × (x.seq ≡ l.seq)
unfolding exposed_to
exposed_to-noted holder name l why e = (_, get_last?-append e.exposed _, refl, refl)

expose_where-noted :
    (lost : Text → Bool) (holder name : Text) (l : Link) (why : Text → Text) (n : Text)
    (envs : Dict EnvState) (e : EnvState)
    → lookup n envs ≡ some e
    → lost n ≡ true
    → lookup n (expose_where lost holder name l why envs)
      ≡ some (exposed_to holder name l (why n) e)
unfolding expose_where
expose_where-noted lost holder name l why n envs e found gone =
    let f : Text → EnvState → EnvState =
      λ m e. if lost m then exposed_to holder name l (why m) e else e in
    ground (arith, lookup-update_all f n envs)

set_envs-members :
    (s : State) (es : List Env) (l : Link) (t : State)
    → set_envs s es l ≡ ok t
    → t.members ≡ s.members
unfolding set_envs
set_envs-members s [] l t h = ground arith
set_envs-members s (e ∷ es) l t h =
    let (v, one, rest) = >>=-eq-ok (set_env s e l false) _ h in
    ground (arith, set_env-members s e l false v one, set_envs-members v es l t rest)

module _ (x : External) (s : State) (l : Link) (user n : Text) (m : MemberState) (e : EnvState)
    (present : member s user ≡ some m) (read : member_has m n ≡ true)
    (found : lookup n s.envs ≡ some e) where
  -- a write for someone else changes nothing for the person
  unchanged :
      (other : Text) (w : MemberState)
      → text_eq other user ≡ false
      → access_in (insert other w s.members) user n ≡ true
  unfolding member
  unchanged other w apart = ground (arith, present, read, lookup-insert other user w s.members)

  -- a write for the person, and an exposure wherever they lose access
  IsNoted-where_lost :
      (w : MemberState) (lost : Text → Bool) (name : Text) (why : Text → Text) (t : State)
      → t.members ≡ insert user w s.members
      → t.envs ≡ expose_where lost m.person.user name l why s.envs
      → reads t user n ≡ false
      → (lost n ≡ (member_has m n && not (w.active && member_has w n)))
      → IsNoted t m.person.user n l.seq
  unfolding reads member_has
  IsNoted-where_lost w lost name why t members envs gone test =
      let (ex, last, holder, at) = exposed_to-noted m.person.user name l (why n) e in
      let self : text_eq user user ≡ true = text_eq_refl user in
      let here = lookup-insert user user w s.members in
      let out : lost n ≡ true = ground (arith, test, read, gone, members, here, self) in
      record {
        entry = exposed_to m.person.user name l (why n) e;
        found =
            ap (lookup n) envs
            ∙ expose_where-noted lost m.person.user name l why n s.envs e found out;
        exposure = ex;
        last = last;
        of_holder = holder;
        at_seq = at;
      }

  created_reads :
      (other : Text) (w : MemberState) (ms : Dict MemberState)
      → w.active ≡ true
      → w.admin ≡ true
      → ms ≡ s.members
      → access_in (insert other w ms) user n ≡ true
  unfolding member member_has
  created_reads other w ms active admin same =
      ground (arith, present, read, same, lookup-insert other user w ms)

  updated_test :
      (m₂ w : MemberState)
      → m₂ ≡ m
      → (member_has m₂ n && not (member_has w n))
        ≡ (member_has m n && not (w.active && member_has w n))
  unfolding member_has
  updated_test m₂ w own = ground (arith, own)

  -- where the members stay as they are, nobody loses access
  not_lost : (t : State) → t.members ≡ s.members → reads t user n ≡ true
  unfolding reads member
  not_lost t same = ground (arith, present, read, same)

  Change-IsNoted :
      (k : LinkType) (t : State)
      → Change x s l k t
      → k ≢ env_rename
      → reads t user n ≡ false
      → IsNoted t m.person.user n l.seq
  unfolding reads
  Change-IsNoted k t (created b v first made) other gone =
      let w = new_member b.creator true [] [] l in
      absurd (
        ground (
          arith,
          gone,
          created_reads b.creator.user w v.members refl refl (set_envs-members s b.envs l v made),
        ))
  Change-IsNoted k t (member_added b envs decoded fresh ok_envs) other gone =
      let w = new_member b.member b.admin envs b.verified l in
      let apart : text_eq b.member.user user ≡ false =
        ground (arith, fresh, member-lookup s user m present, text_eq_iff b.member.user user) in
      absurd (ground (arith, gone, unchanged b.member.user w apart))
  Change-IsNoted k t (member_updated b m₂ envs decoded there ok_envs kept) other gone =
      let w = with_access m₂ b.admin envs in
      elim (Bool-cases (text_eq b.user user)) [
        | inl hit ↦
            let same = (text_eq_iff b.user user).0 hit in
            let own : m₂ ≡ m = ground (arith, same, there, present) in
            IsNoted-where_lost w (λ i. member_has m₂ i && not (member_has w i)) m₂.person.login
              (access_removed "access to ") t (ap (λ (i : Text). insert i w s.members) same)
              (ap
                (λ (v : MemberState).
                  expose_where (λ i. member_has m₂ i && not (member_has w i)) v.person.user
                    m₂.person.login l (access_removed "access to ") s.envs)
                own)
              gone (updated_test m₂ w own)
        | inr apart ↦ absurd (ground (arith, gone, unchanged b.user w apart))
      ]
  Change-IsNoted k t (member_removed b m₂ decoded entitled there kept) other gone =
      let w : MemberState = record m₂ { active = false; removed_seq = l.seq } in
      elim (Bool-cases (text_eq b.user user)) [
        | inl hit ↦
            let same = (text_eq_iff b.user user).0 hit in
            let own : m₂ ≡ m = ground (arith, same, there, present) in
            IsNoted-where_lost w (member_has m₂) m₂.person.login (λ _. why_removed b.user l.signer)
              t (ap (λ (i : Text). insert i w s.members) same)
              (ap
                (λ (v : MemberState).
                  expose_where (member_has m₂) v.person.user m₂.person.login l
                    (λ _. why_removed b.user l.signer) s.envs)
                own)
              gone (ground (arith, own, read))
        | inr apart ↦ absurd (ground (arith, gone, unchanged b.user w apart))
      ]
  Change-IsNoted k t (env_changed e₂ v made) other gone =
      absurd (ground (arith, gone, not_lost t (set_env-members s e₂ l true t made)))
  Change-IsNoted k t (env_renamed b e₂ there fresh) other gone = absurd (other refl)
  Change-IsNoted k t (machine_added m₂ fresh keys envs active) other gone =
      absurd (ground (arith, gone, not_lost t refl))
  Change-IsNoted k t (machine_removed b m₂ there) other gone =
      absurd (ground (arith, gone, not_lost t refl))
  Change-IsNoted k t (group_added b v absent envs made) other gone =
      absurd (ground (arith, gone, not_lost t (add_group-members s l b t made)))
  Change-IsNoted k t (group_changed b old there envs same) other gone =
      absurd (ground (arith, gone, not_lost t refl))
  Change-IsNoted k t (stopped successor) other gone = absurd (ground (arith, gone, not_lost t refl))
  Change-IsNoted k t (resumed was) other gone = absurd (ground (arith, gone, not_lost t refl))

ok-injective : {k l : Link} → ok k ≡ ok l → k ≡ l
ok-injective h = ground arith

-- When an accepted link, which does not rename an environment, takes an existing environment from an
-- active member who could read it, the environment's last exposure is theirs, at the position of the
-- link.
pub step-IsNoted :
    (x : External) (chains : Chains) (s : State) (e : Envelope) (l : Link) (u : State)
    (user n : Text) (m : MemberState) (entry : EnvState)
    → step x chains s (some e) ≡ ok u
    → peek_link x e ≡ ok l
    → link_type l.typ ≢ env_rename
    → member s user ≡ some m
    → member_has m n ≡ true
    → lookup n s.envs ≡ some entry
    → reads u user n ≡ false
    → IsNoted u m.person.user n u.seq
unfolding reads
step-IsNoted x chains s e l u user n m entry h read_link other present read found gone =
    let st = step-Stepped x chains s e u h in
    let same : st.link ≡ l = ok-injective (sym st.read ∙ read_link) in
    let change = apply_type-Change x s st.link st.applied (link_type st.link.typ) st.run in
    let lost : reads st.applied user n ≡ false = ground (arith, gone, st.result) in
    let noted =
      Change-IsNoted x s st.link user n m entry present read found (link_type st.link.typ)
        st.applied change
        (λ renames. other (ap (λ (k : Link). link_type k.typ) (sym same) ∙ renames)) lost in
    rw st.result (record {
      entry = noted.entry;
      found = noted.found;
      exposure = noted.exposure;
      last = noted.last;
      of_holder = noted.of_holder;
      at_seq = noted.at_seq;
    })

-- ===== src/Team/Scope.antt =====
-- What a link can do that a person's delegate signed.
use esec_vault.Base.{
  ◌≡◌, refl, sym, ◌∙◌, ap, ◌≢◌, Bool, false, ◌&&◌, some, none, Option, List, [], ◌∷◌, Text, ok,
  >>=-eq-ok, arith, ◌==◌, if◌then◌else◌, lookup, insert, lookup-insert, lookup-update_all, text_eq,
  text_eq_iff, Dict, Option-cases, inl, inr, require_that,
}
use esec_vault.Envelope.{Envelope}
use esec_vault.Team.Types.{Link, LinkType, link_type, Env, GroupSetBody}
use esec_vault.Team.State.{
  if_active, is_admin, State, EnvState, MemberState, MachineState, member, admin, machine,
}
use esec_vault.Team.External.{External, Chains}
use esec_vault.Team.Access.{exposed_to, expose, expose_each, expose_where}
use esec_vault.Team.Members.{new_member}
use esec_vault.Team.Groups.{add_group}
use esec_vault.Team.Delegate.{scope_of, project_scope, delegate_signer}
use esec_vault.Team.Signer.{check_signer, check_delegate}
use esec_vault.Team.Step.{peek_link, step}
use esec_vault.Team.Frame.{step-Stepped}
use esec_vault.Team.Change.{
  Change, with_access, created, member_added, member_updated, member_removed, env_changed,
  env_renamed, machine_added, machine_removed, group_added, group_changed, stopped, resumed,
}
use esec_vault.Team.Change.Refines.{apply_type-Change}

abbrev pub key_of : Option EnvState → Option Env
key_of none = none
key_of (some e) = some e.env

abbrev pub machine_keys : State → Text → Option Text
machine_keys s id = elim (machine s id) [ none ↦ none | some m ↦ some m.machine.enc_pub ]

-- The same admins and environment keys, and no machine that was not there.
pub record IsLimited (s t : State) : Type 0 where
  pub same_admins : (user : Text) → admin t user ≡ admin s user
  pub same_keys : (n : Text) → key_of (lookup n t.envs) ≡ key_of (lookup n s.envs)
  pub no_machine : (id : Text) → machine s id ≡ none → machine t id ≡ none

pub expose_where-key :
    (n : Text) (lost : Text → Bool) (holder name : Text) (l : Link) (why : Text → Text)
    (envs : Dict EnvState)
    → key_of (lookup n (expose_where lost holder name l why envs)) ≡ key_of (lookup n envs)
unfolding expose_where exposed_to
expose_where-key n lost holder name l why envs =
    let f : Text → EnvState → EnvState =
      λ m e. if lost m then exposed_to holder name l (why m) e else e in
    ground (arith, lookup-update_all f n envs)

expose-key :
    (n m holder name : Text) (l : Link) (why : Text) (envs : Dict EnvState)
    → key_of (lookup n (expose m holder name l why envs)) ≡ key_of (lookup n envs)
unfolding expose exposed_to
expose-key n m holder name l why envs = elim (Option-cases (lookup m envs)) [
  | inl absent ↦ rw absent refl
  | inr (e, present) ↦ ground (
    arith,
    lookup-insert m n (exposed_to holder name l why e) envs,
    text_eq_iff m n,
    ap (λ (k : Text). lookup k envs) {x = m} {y = n},
  )
]

expose_each-key :
    (n : Text) (ms : List Text) (holder name : Text) (l : Link) (why : Text → Text)
    (envs : Dict EnvState)
    → key_of (lookup n (expose_each ms holder name l why envs)) ≡ key_of (lookup n envs)
unfolding expose_each
expose_each-key n [] holder name l why envs = refl
expose_each-key n (m ∷ ms) holder name l why envs =
    expose_each-key n ms holder name l why (expose m holder name l (why m) envs)
    ∙ expose-key n m holder name l (why m) envs

abbrev admin_in : Dict MemberState → Text → Bool
admin_in ms user = is_admin (if_active (λ m. m.active) (lookup user ms))

-- a write that does not change whether the person is an admin
insert-admin :
    (user other : Text) (m : MemberState) (ms : Dict MemberState)
    → (m.active && m.admin) ≡ admin_in ms user
    → admin_in (insert user m ms) other ≡ admin_in ms other
insert-admin user other m ms h = ground (
  arith,
  lookup-insert user other m ms,
  text_eq_iff user other,
  ap (λ (k : Text). lookup k ms) {x = user} {y = other},
)

ok-injective : {k l : Link} → ok k ≡ ok l → k ≡ l
ok-injective h = ground arith

pub add_group-frame :
    (s : State) (l : Link) (b : GroupSetBody) (t : State)
    → add_group s l b b.envs ≡ ok t
    → (t.members ≡ s.members) × (t.envs ≡ s.envs) × (t.machines ≡ s.machines)
unfolding add_group
add_group-frame s l b t h = (ground arith, ground arith, ground arith)

module _ (x : External) (s : State) (l : Link) where
  Change-IsLimited :
      (k : LinkType) (t : State) (scope : Text)
      → Change x s l k t
      → scope_of x k s l ≡ ok scope
      → IsLimited s t
  unfolding scope_of admin member machine
  Change-IsLimited k t scope (created b v first made) h = absurd (cc)
  Change-IsLimited k t scope (env_changed e v made) h = absurd (cc)
  Change-IsLimited k t scope (env_renamed b e there fresh) h = absurd (cc)
  Change-IsLimited k t scope (machine_added m fresh keys envs active) h = absurd (cc)
  Change-IsLimited k t scope (stopped successor) h = record {
    same_admins = λ _. refl;
    same_keys = λ _. refl;
    no_machine = λ _ a. a;
  }
  Change-IsLimited k t scope (resumed was) h = record {
    same_admins = λ _. refl;
    same_keys = λ _. refl;
    no_machine = λ _ a. a;
  }
  Change-IsLimited k t scope (member_added b envs decoded fresh ok_envs) h =
      let m = new_member b.member b.admin envs b.verified l in
      record {
        same_admins = λ user. insert-admin b.member.user user m s.members (ground arith);
        same_keys = λ _. refl;
        no_machine = λ _ a. a;
      }
  Change-IsLimited k t scope (member_updated b m envs decoded present ok_envs kept) h =
      let m₂ = with_access m b.admin envs in
      record {
        same_admins = λ user. insert-admin b.user user m₂ s.members (ground arith);
        same_keys = λ n. expose_where-key n _ _ _ _ _ s.envs;
        no_machine = λ _ a. a;
      }
  Change-IsLimited k t scope (member_removed b m decoded entitled present kept) h =
      let m₂ : MemberState = record m { active = false; removed_seq = l.seq } in
      record {
        same_admins = λ user. insert-admin b.user user m₂ s.members (ground arith);
        same_keys = λ n. expose_where-key n _ _ _ _ _ s.envs;
        no_machine = λ _ a. a;
      }
  Change-IsLimited k t scope (machine_removed b m present) h =
      let m₂ : MachineState = record m { active = false; removed_seq = l.seq } in
      record {
        same_admins = λ _. refl;
        same_keys = λ n. expose_each-key n _ _ _ _ _ s.envs;
        no_machine =
            λ id absent. ground (arith, lookup-insert b.id id m₂ s.machines, text_eq_iff b.id id);
      }
  Change-IsLimited k t scope (group_added b v absent envs made) h =
      let (same_members, same_envs, same_machines) = add_group-frame s l b v made in
      record {
        same_admins = λ user. ap (λ (ms : Dict MemberState). admin_in ms user) same_members;
        same_keys = λ n. ap (λ (es : Dict EnvState). key_of (lookup n es)) same_envs;
        no_machine = λ id a. rw same_machines a;
      }
  Change-IsLimited k t scope (group_changed b old present envs same) h = record {
    same_admins = λ _. refl;
    same_keys = λ n. expose_each-key n _ _ _ _ _ s.envs;
    no_machine = λ _ a. a;
  }

-- A link that a delegate signed leaves every person an admin or not, as they were, and every
-- environment with the key it had, and makes no machine active.
pub delegate-IsLimited :
    (x : External) (chains : Chains) (s : State) (e : Envelope) (l : Link) (u : State)
    → step x chains s (some e) ≡ ok u
    → peek_link x e ≡ ok l
    → l.signer_delegate ≢ []
    → IsLimited s u
unfolding check_signer check_delegate project_scope admin member machine
delegate-IsLimited x chains s e l u h read named =
    let st = step-Stepped x chains s e u h in
    let k = st.link in
    let same : k ≡ l = ok-injective (sym st.read ∙ read) in
    let other : text_eq k.signer_delegate [] ≡ false =
      ground (arith, text_eq_iff l.signer_delegate [], same, named) in
    let signed : check_delegate x s e k st.root chains ≡ ok tt = ground (arith, st.signed) in
    let (_, _, h₁) = >>=-eq-ok (require_that (k.signer_key == 0) _) _ signed in
    let (d, _, h₂) =
      >>=-eq-ok (delegate_signer chains k.signer st.root k.signer_delegate k.signer_seq k.ctime) _
        h₁ in
    let (scope, in_scope, h₃) = >>=-eq-ok (scope_of x (link_type k.typ) s k) _ h₂ in
    let change = apply_type-Change x s k st.applied (link_type k.typ) st.run in
    let limited = Change-IsLimited x s k (link_type k.typ) st.applied scope change in_scope in
    rw st.result (record {
      same_admins = limited.same_admins;
      same_keys = limited.same_keys;
      no_machine = limited.no_machine;
    })

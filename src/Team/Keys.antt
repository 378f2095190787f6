-- ===== src/Team/Keys.antt =====
-- An environment key is used once: no link sets a key that the project has or had.
use esec_vault.Base.{
  ◌≡◌, ◌≢◌, sym, ap, ◌∙◌, Bool, true, false, ◌||◌, some, none, Option, List, [], ◌∷◌, ◌++◌, Text,
  ok, arith, ◌&&◌, not, >>=-eq-ok, lookup, insert, delete, any_value, any_value-insert_new,
  any_value-insert_keeps, any_value-update_all, any_value-delete, lookup-delete-none, text_eq, Dict,
  if◌then◌else◌, Bool-cases, Option-cases, inl, inr, wrapped, fail_if, is_some,
}
use esec_vault.Envelope.{Envelope}
use esec_vault.Team.Types.{Link, LinkType, link_type, env_set, Env, EnvSetBody}
use esec_vault.Team.State.{State, EnvState, listed}
use esec_vault.Team.External.{External, Chains}
use esec_vault.Team.Access.{decode_body, expose, expose_each, expose_where, exposed_to}
use esec_vault.Team.Valid.{valid_env_key, valid_reason}
use esec_vault.Team.Envs.{retired_name, retired_keys, used_key, set_env, set_envs, apply_env_set}
use esec_vault.Team.Scope.{add_group-frame}
use esec_vault.Team.Step.{peek_link, apply_type, step, steps}
use esec_vault.Team.Frame.{step-Stepped, step_nil}
use esec_vault.Team.Change.{
  Change, created, member_added, member_updated, member_removed, env_changed, env_renamed,
  machine_added, machine_removed, group_added, group_changed, stopped, resumed,
}
use esec_vault.Team.Change.Refines.{apply_type-Change}

listed-append :
    (key : Text) (ks : List Text) (k : Text)
    → listed key (ks ++ k ∷ []) ≡ (listed key ks || text_eq k key)
unfolding listed
listed-append key [] k = ground arith
listed-append key (j ∷ ks) k = ground (arith, listed-append key ks k)

-- whether an environment of the project has or had the key
abbrev pub has_key : State → Text → Bool
has_key s key = any_value (used_key key) s.envs

module _ (key : Text) where
  set_env-has_key :
      (s : State) (e : Env) (l : Link) (b : Bool) (t : State)
      → set_env s e l b ≡ ok t
      → has_key s key ≡ true
      → has_key t key ≡ true
  unfolding set_env
  set_env-has_key s e l b t h known =
      let fresh : EnvState = record {
        env = e;
        seq = l.seq;
        since = l.ctime;
        retired = retired_keys (lookup e.name s.envs);
        exposed = [];
      } in
      let made : t.envs ≡ insert e.name fresh s.envs = ground arith in
      let kept = any_value-insert_keeps (used_key key) e.name fresh s.envs known (λ w found used.
        ground (arith, found, used, listed-append key w.retired w.env.public_key)) in
      ap (any_value (used_key key)) made ∙ kept

  set_envs-has_key :
      (s : State) (es : List Env) (l : Link) (t : State)
      → set_envs s es l ≡ ok t
      → has_key s key ≡ true
      → has_key t key ≡ true
  unfolding set_envs
  set_envs-has_key s [] l t h known = ground arith
  set_envs-has_key s (e ∷ es) l t h known =
      let (v, one, rest) = >>=-eq-ok (set_env s e l false) _ h in
      set_envs-has_key v es l t rest (set_env-has_key s e l false v one known)

  expose_where-has_key :
      (lost : Text → Bool) (holder name : Text) (l : Link) (why : Text → Text)
      (envs : Dict EnvState)
      → any_value (used_key key) (expose_where lost holder name l why envs)
        ≡ any_value (used_key key) envs
  unfolding expose_where exposed_to
  expose_where-has_key lost holder name l why envs =
      any_value-update_all (used_key key)
        (λ m e. if lost m then exposed_to holder name l (why m) e else e) envs (λ m e. ground arith)

  expose-has_key :
      (m holder name : Text) (l : Link) (why : Text) (envs : Dict EnvState)
      → any_value (used_key key) envs ≡ true
      → any_value (used_key key) (expose m holder name l why envs) ≡ true
  unfolding expose exposed_to
  expose-has_key m holder name l why envs known = elim (Option-cases (lookup m envs)) [
    | inl absent ↦ rw absent known
    | inr (e, present) ↦ rw present (
        any_value-insert_keeps (used_key key) m (exposed_to holder name l why e) envs known
          (λ w found used. ground (arith, found, present, used)))
  ]

  expose_each-has_key :
      (ms : List Text) (holder name : Text) (l : Link) (why : Text → Text) (envs : Dict EnvState)
      → any_value (used_key key) envs ≡ true
      → any_value (used_key key) (expose_each ms holder name l why envs) ≡ true
  unfolding expose_each
  expose_each-has_key [] holder name l why envs known = known
  expose_each-has_key (m ∷ ms) holder name l why envs known =
      expose_each-has_key ms holder name l why (expose m holder name l (why m) envs)
        (expose-has_key m holder name l (why m) envs known)

  -- the same environment under another name
  renamed-has_key :
      (old new_name : Text) (e : EnvState) (envs : Dict EnvState)
      → lookup old envs ≡ some e
      → lookup new_name envs ≡ none
      → any_value (used_key key) envs ≡ true
      → any_value
          (used_key key)
          (insert new_name (record e { env = record e.env { name = new_name } }) (delete old envs))
        ≡ true
  renamed-has_key old new_name e envs found fresh known =
      let w : EnvState = record e { env = record e.env { name = new_name } } in
      elim (Bool-cases (used_key key e)) [
        | inl used ↦ any_value-insert_new (used_key key) new_name w (delete old envs) used
        | inr other ↦
            any_value-insert_keeps (used_key key) new_name w (delete old envs)
              (any_value-delete (used_key key) old e envs known found other)
              (λ u there used.
                absurd (
                  ground (arith, there, lookup-delete-none (used_key key) new_name old envs fresh)))
      ]

  module _ (x : External) (s : State) (l : Link) where
    Change-has_key :
        (k : LinkType) (t : State) → Change x s l k t → has_key s key ≡ true → has_key t key ≡ true
    Change-has_key k t (created b v first made) known = set_envs-has_key s b.envs l v made known
    Change-has_key k t (env_changed e v made) known = set_env-has_key s e l true t made known
    Change-has_key k t (env_renamed b e there fresh) known =
        renamed-has_key b.old b.renamed e s.envs there (ground arith) known
    Change-has_key k t (group_added b v absent envs made) known =
        ground (arith, (add_group-frame s l b t made).1, known)
    Change-has_key k t (member_added b envs d f o) known = known
    Change-has_key k t (member_updated b m envs d p o kept) known =
        expose_where-has_key _ _ _ l _ s.envs ∙ known
    Change-has_key k t (member_removed b m d e p kept) known =
        expose_where-has_key _ _ _ l _ s.envs ∙ known
    Change-has_key k t (machine_added m fresh keys envs active) known = known
    Change-has_key k t (machine_removed b m present) known =
        expose_each-has_key m.envs _ _ l _ s.envs known
    Change-has_key k t (group_changed b old present envs same) known =
        expose_each-has_key _ _ _ l _ s.envs known
    Change-has_key k t (stopped successor) known = known
    Change-has_key k t (resumed was) known = known

  module _ (x : External) (chains : Chains) where
    steps-has_key :
        (s : State) (es : List (Option Envelope)) (u : State)
        → steps x chains s es ≡ ok u
        → has_key s key ≡ true
        → has_key u key ≡ true
    unfolding steps
    steps-has_key s [] u h known = ground arith
    steps-has_key s (none ∷ es) u h known = absurd (ground (arith, step_nil x chains s))
    steps-has_key s (some e ∷ es) u h known =
        let (t, one, rest) =
          >>=-eq-ok (wrapped "project chain link %d: %w" (step x chains s (some e))) _ h in
        let made : step x chains s (some e) ≡ ok t = ground arith in
        let st = step-Stepped x chains s e t made in
        let change = apply_type-Change x s st.link st.applied (link_type st.link.typ) st.run in
        let kept = Change-has_key x s st.link (link_type st.link.typ) st.applied change known in
        steps-has_key t es u rest (rw st.result kept)

apply_env_set-fresh :
    (x : External) (s : State) (l : Link) (b : EnvSetBody) (t : State)
    → apply_env_set x s l ≡ ok t
    → decode_body x.env_set l ≡ ok b
    → has_key s b.env.public_key ≡ false
unfolding apply_env_set set_env
apply_env_set-fresh x s l b t h decoded =
    let (c, same, h₁) = >>=-eq-ok (decode_body x.env_set l) _ h in
    let (_, _, h₂) = >>=-eq-ok (valid_reason x c.reason) _ h₁ in
    let (_, _, h₃) = >>=-eq-ok (fail_if (retired_name s c.env.name) _) _ h₂ in
    let (_, _, h₄) = >>=-eq-ok (valid_env_key c.env) _ h₃ in
    let (_, _, h₅) = >>=-eq-ok (fail_if (is_some (lookup c.env.name s.envs) && not true) _) _ h₄ in
    let (_, fresh, made) =
      >>=-eq-ok (fail_if (any_value (used_key c.env.public_key) s.envs) _) _ h₅ in
    let own : c ≡ b = ground (arith, same, decoded) in
    ap (λ (v : EnvSetBody). has_key s v.env.public_key) (sym own) ∙ ground arith

-- Once a project had an environment with a key, in use or retired, whatever links follow, no
-- accepted link sets an environment to that key.
pub steps-fresh_key :
    (x : External) (chains : Chains) (key : Text) (s u v : State) (es : List (Option Envelope))
    (e : Envelope) (l : Link) (b : EnvSetBody)
    → has_key s key ≡ true
    → steps x chains s es ≡ ok u
    → step x chains u (some e) ≡ ok v
    → peek_link x e ≡ ok l
    → link_type l.typ ≡ env_set
    → decode_body x.env_set l ≡ ok b
    → b.env.public_key ≢ key
unfolding apply_type
steps-fresh_key x chains key s u v es e l b known between last read typed decoded same =
    let st = step-Stepped x chains u e v last in
    let own : st.link ≡ l = ground (arith, st.read, read) in
    let run : apply_env_set x u l ≡ ok st.applied = ground (arith, st.run, own, typed) in
    let fresh = apply_env_set-fresh x u l b st.applied run decoded in
    let held = steps-has_key key x chains s es u between known in
    let clash : has_key u key ≡ false = ap (λ (k : Text). has_key u k) (sym same) ∙ fresh in
    absurd (cc (held, clash))

-- ===== src/Group/Limits.antt =====
-- About the links of internal/team/group.go that tokens and delegates sign.
use esec_vault.Base.{
  ◌≡◌, ◌<◌, inl, inr, refl, sym, ap, ◌∙◌, true, false, Bool-cases, some, none, [], Text, ok,
  >>=-eq-ok, arith, text_eq, text_eq_iff, fail_if, is_ok, lookup, insert, lookup-delete-none,
  lookup-insert,
}
use mathlib.Core.Path.{subst}
use esec_vault.Envelope.{Envelope}
use esec_vault.Team.External.{Chains}
use esec_vault.Group.Types.{
  Link, LinkType, link_type, machine_add, token_add, workload_add, Credential, Kind,
}
use esec_vault.Group.State.{State, CredState, cred, expired}
use esec_vault.Chain.Types.{is_zero}
use esec_vault.Group.External.{External}
use esec_vault.Group.Valid.{valid_cred_id, same_oidc}
use esec_vault.Group.Creds.{new_cred}
use esec_vault.Group.Step.{
  token_key, signer_key, web_add, scope_of, group_scope, check_own_key, check_signer, peek_link,
  step,
}
use esec_vault.Group.Frame.{cred-found, step-Stepped}
use esec_vault.Group.Vouched.{IsToken, token_key-IsToken}
use esec_vault.Group.Signed.{delegated}
use esec_vault.Group.Change.{
  Change, added_kind, may_enroll, created, admin_added, admin_removed, member_added, member_removed,
  cred_added, workload_rekeyed, cred_removed, key_rotated, access_added, access_removed,
}

-- A token that may sign a link: one of the group that is active and, if it expires, does so later.
pub record IsActiveToken (s : State) (l : Link) (t : CredState) : Type 0 where
  pub there : lookup l.signer s.creds ≡ some t
  pub active : t.active ≡ true
  pub is_token : t.kind ≡ Kind.token
  pub enrolls : link_type l.typ ≡ machine_add
  pub in_time : is_zero t.cred.expires ≡ false → l.ctime < t.cred.expires

unexpired :
    (t : CredState) (l : Link)
    → is_zero t.cred.expires ≡ false
    → expired t l.ctime ≡ false
    → l.ctime < t.cred.expires
unfolding expired
unexpired t l dated live = ground (arith, dated, live)

-- What a token's link does: it adds one machine, with the token's policy, and nothing else.
pub record IsEnrolled (s u : State) (l : Link) (t : CredState) : Type 0 where
  pub machine : Credential
  pub join : Text
  pub fresh : lookup machine.id s.creds ≡ none
  pub policy : same_oidc t.cred.oidc machine.oidc ≡ true
  pub creds : u.creds ≡ insert machine.id (new_cred machine Kind.machine join l) s.creds
  pub admins : u.admins ≡ s.admins
  pub members : u.members ≡ s.members
  pub key : u.key ≡ s.key
  pub access : u.access ≡ s.access

-- What a delegate's link leaves: the group's key, its admins, which credentials and projects there
-- are, but for those it takes out, and the credentials' keys.
pub record IsLimited (s u : State) : Type 0 where
  pub key : u.key ≡ s.key
  pub admins : u.admins ≡ s.admins
  pub creds :
      (id : Text) (c : CredState)
      → lookup id u.creds ≡ some c
      → (d : CredState) × (lookup id s.creds ≡ some d)
        × (c.cred ≡ d.cred)
        × (c.destroyed ≡ true → d.destroyed ≡ true)
  pub access : (p : Text) → lookup p s.access ≡ none → lookup p u.access ≡ none

module _ (x : External) (s : State) (l : Link) where
  added_kind-machine :
      (k : LinkType) (kind : Kind)
      → added_kind k ≡ some kind
      → k ≡ machine_add
      → kind ≡ Kind.machine
  added_kind-machine machine_add kind h is = ground arith
  added_kind-machine _ kind h is = absurd (cc)

  Change-IsEnrolled :
      (k : LinkType) (v : State) (t : CredState)
      → Change x s l k v
      → k ≡ machine_add
      → cred s l.signer ≡ some t
      → IsEnrolled s v l t
  Change-IsEnrolled _ _ t (cred_added k c kind join adds may fresh keys group) is of =
      let machine : kind ≡ Kind.machine = added_kind-machine k kind adds is in
      let allowed : may_enroll s l Kind.machine c ≡ true =
        subst (λ (m : Kind). may_enroll s l m c ≡ true) machine may in
      record {
        machine = c;
        join = join;
        fresh = fresh;
        policy = ground (arith, allowed, of);
        creds = ap (λ (m : Kind). insert c.id (new_cred c m join l) s.creds) machine;
        admins = refl;
        members = refl;
        key = refl;
        access = refl;
      }
  Change-IsEnrolled _ _ t _ is of = absurd (cc)

  added_kind-out_of_scope :
      (k : LinkType) (kind : Kind) (need : Text)
      → added_kind k ≡ some kind
      → scope_of x k l ≡ ok need
      → ⊥
  unfolding scope_of
  added_kind-out_of_scope machine_add kind need adds h = cc
  added_kind-out_of_scope token_add kind need adds h = cc
  added_kind-out_of_scope workload_add kind need adds h = cc
  added_kind-out_of_scope _ kind need adds h = cc

  -- a credential that a link takes out
  removed-same :
      (id : Text) (c gone : CredState) (find : Text) (v : CredState)
      → lookup id s.creds ≡ some c
      → gone.cred ≡ c.cred
      → gone.destroyed ≡ false
      → lookup find (insert id gone s.creds) ≡ some v
      → (d : CredState) × (lookup find s.creds ≡ some d)
        × (v.cred ≡ d.cred)
        × (v.destroyed ≡ true → d.destroyed ≡ true)
  removed-same id c gone find v there same kept found = elim (Bool-cases (text_eq id find)) [
    | inl here ↦
        let at : gone ≡ v = ground (arith, found, here, lookup-insert id find gone s.creds) in
        (
          c,
          ap (λ (k : Text). lookup k s.creds) (sym ((text_eq_iff id find).0 here)) ∙ there,
          ap (λ (w : CredState). w.cred) (sym at) ∙ same,
          λ was. absurd (ground (arith, was, kept, ap (λ (w : CredState). w.destroyed) at)),
        )
    | inr other ↦
        (v, ground (arith, found, other, lookup-insert id find gone s.creds), refl, λ was. was)
  ]

  Change-IsLimited :
      (k : LinkType) (v : State)
      → Change x s l k v
      → (need : Text) → scope_of x k l ≡ ok need
      → IsLimited s v
  unfolding scope_of
  Change-IsLimited k _ (created b t at first made) need h = absurd (cc)
  Change-IsLimited k _ (admin_added b members other done) need h = absurd (cc)
  Change-IsLimited k _ (admin_removed b a present kept) need h = absurd (cc)
  Change-IsLimited k _ (member_added b decoded other) need h = record {
    key = refl;
    admins = refl;
    creds = λ id c there. (c, there, refl, λ was. was);
    access = λ p h. h;
  }
  Change-IsLimited k _ (member_removed b m why present may) need h = record {
    key = refl;
    admins = refl;
    creds = λ id c there. (c, there, refl, λ was. was);
    access = λ p h. h;
  }
  Change-IsLimited _ _ (cred_added k c kind join adds may fresh keys group) need h =
      absurd (added_kind-out_of_scope k kind need adds h)
  Change-IsLimited k _ (workload_rekeyed id key c present is) need h = absurd (cc)
  Change-IsLimited k _ (cred_removed b c decoded present) need h =
      let kept : b.destroyed ≡ false = ground (arith, decoded, h) in
      let gone : CredState = record c {
        active = false;
        removed_seq = l.seq;
        removed_time = l.ctime;
        destroyed = b.destroyed;
        reason = b.reason;
      } in
      record {
        key = refl;
        admins = refl;
        creds = λ id v found.
            removed-same b.id c gone id v (cred-found s b.id c present).0 refl kept found;
        access = λ p h. h;
      }
  Change-IsLimited k _ (key_rotated key t version made) need h = absurd (cc)
  Change-IsLimited k _ (access_added project root fresh) need h = absurd (cc)
  Change-IsLimited k _ (access_removed project) need h = record {
    key = refl;
    admins = refl;
    creds = λ id c there. (c, there, refl, λ was. was);
    access = λ p h. lookup-delete-none (λ (r : Text). true) p project s.access h;
  }

module _ (x : External) (chains : Chains) where
  check_signer-IsToken :
      (s : State) (e : Envelope) (l : Link)
      → check_signer x s e l chains ≡ ok tt
      → l.signer_delegate ≡ []
      → is_ok (valid_cred_id l.signer) ≡ true
      → (key : Text) × IsToken s l key
  unfolding check_signer check_own_key signer_key
  check_signer-IsToken s e l signed alone of_cred =
      let own : check_own_key x s e l chains ≡ ok tt =
        ground (arith, signed, (text_eq_iff l.signer_delegate []).1 alone) in
      let (_, _, h₁) = >>=-eq-ok (fail_if (web_add x l) _) _ own in
      let (key, found, h₂) = >>=-eq-ok (signer_key x s l chains) _ h₁ in
      let run : token_key s l ≡ ok key = ground (arith, found, of_cred) in
      (key, token_key-IsToken s l key run)

  -- An accepted link that no delegate signed and whose signer has the id of a credential is a
  -- machine_add of an active token of the group that has not expired: it adds one machine, under a
  -- new id and with the token's OIDC policy, and leaves people, projects and the group's key as they
  -- are.
  pub token_step-IsEnrolled :
      (s : State) (e : Envelope) (u : State) (l : Link)
      → step x chains s (some e) ≡ ok u
      → peek_link x e ≡ ok l
      → l.signer_delegate ≡ []
      → is_ok (valid_cred_id l.signer) ≡ true
      → (t : CredState) × IsActiveToken s l t × IsEnrolled s u l t
  token_step-IsEnrolled s e u l made read alone of_cred =
      let st = step-Stepped x chains s e u made in
      let same : st.link ≡ l = ground (arith, st.read, read) in
      let signed : check_signer x s e l chains ≡ ok tt =
        subst (λ (m : Link). check_signer x s e m chains ≡ ok tt) same st.signed in
      let (key, of) = check_signer-IsToken s e l signed alone of_cred in
      let change : Change x s l (link_type l.typ) st.applied =
        subst (λ (m : Link). Change x s m (link_type m.typ) st.applied) same st.change in
      let done =
        Change-IsEnrolled x s l (link_type l.typ) st.applied of.token change of.enrolls
          of.is_active in
      (
        of.token,
        record {
          there = (cred-found s l.signer of.token of.is_active).0;
          active = (cred-found s l.signer of.token of.is_active).1;
          is_token = of.is_token;
          enrolls = of.enrolls;
          in_time = λ dated. unexpired of.token l dated of.in_time;
        },
        subst (λ (v : State). IsEnrolled s v l of.token) (sym st.result)
            (record {
              machine = done.machine;
              join = done.join;
              fresh = done.fresh;
              policy = done.policy;
              creds = done.creds;
              admins = done.admins;
              members = done.members;
              key = done.key;
              access = done.access;
            }),
      )

  -- An accepted link that a delegate signed keeps the group's key and admins, adds no machine,
  -- token, workload or project, changes no credential's keys, and says of none that its keys were
  -- destroyed.
  pub group_delegate-IsLimited :
      (s : State) (e : Envelope) (u : State) (l : Link)
      → step x chains s (some e) ≡ ok u
      → peek_link x e ≡ ok l
      → text_eq l.signer_delegate [] ≡ false
      → IsLimited s u
  unfolding group_scope
  group_delegate-IsLimited s e u l made read named =
      let st = step-Stepped x chains s e u made in
      let same : st.link ≡ l = ground (arith, st.read, read) in
      let signed : check_signer x s e l chains ≡ ok tt =
        ground (arith, st.signed, ap (λ (m : Link). check_signer x s e m chains) same) in
      let by = delegated x chains s e l named signed in
      let change : Change x s l (link_type l.typ) st.applied =
        subst (λ (m : Link). Change x s m (link_type m.typ) st.applied) same st.change in
      let done = Change-IsLimited x s l (link_type l.typ) st.applied change by.needed by.needs in
      rw st.result
        (record { key = done.key; admins = done.admins; creds = done.creds; access = done.access })

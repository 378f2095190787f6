-- ===== src/Group/Granted.antt =====
-- About CheckKeyGrant and OpenKeyGrant of internal/team/group.go.
use esec_vault.Base.{
  ◌≡◌, inl, inr, refl, sym, ap, ◌∙◌, true, false, ◌&&◌, Bool-cases, Option, Option-cases, none,
  some, List, [], ◌∷◌, Text, ok, err, wrap, stale, >>=-eq-ok, arith, ◌==◌, text_eq, text_eq_iff,
  require_that, wrapped, or_fail, new,
}
use mathlib.Core.Path.{subst}
use esec_vault.Envelope.{Envelope, verified_by, require, hex_encode, decode_strict}
use esec_vault.Envelope.Signing.{require_iff}
use esec_vault.Chain.State as Account
use esec_vault.Chain.State.{KeyEpoch}
use esec_vault.Chain.Valid.{parse_key32, parse_sign_key}
use esec_vault.Team.External.{Chains}
use esec_vault.Group.Types.{Link, link_type, key_rotate, token}
use esec_vault.Group.State.{State, PersonState, CredState, active_in, cred, same_kind}
use esec_vault.Group.External.{External}
use esec_vault.Group.Step.{peek_link, step, steps}
use esec_vault.Group.Frame.{step-Stepped, steps-keep}
use esec_vault.Group.Counted.{Change-SameFrame}
use esec_vault.Group.Rekey.{is_group_key}
use esec_vault.Group.Removal.{reads}
use esec_vault.Group.Reuse.{steps-IsRotated}
use esec_vault.Group.Grants.{
  kind_key, KeyGrant, Recipient, Opening, AccountChains, admin_or_stale, admin_key,
  key_grant_signer, check_recipient, check_current, peek_key_grant, check_key_grant, open_payload,
  opened, open_key_grant,
}

-- Who made a grant: an active token, or an active admin with a user key that they have or had, in the
-- device chain that the group recorded for them.
pub data GrantedBy (g : KeyGrant) (s : State) (chains : AccountChains) (key : Text) : Type 0 where
  by_token :
      (t : CredState)
      → cred s g.from ≡ some t
      → same_kind t.kind token ≡ true
      → parse_sign_key t.cred.sign_pub ≡ ok key
      → GrantedBy g s chains key
  by_admin :
      (a : PersonState) (account : Account.State) (ep : KeyEpoch)
      → active_in g.from s.admins ≡ some a
      → chains g.from ≡ ok account
      → Account.root account ≡ a.person.root
      → Account.epoch account g.from_key ≡ some ep
      → ep.sign_pub ≡ key
      → GrantedBy g s chains key

pub record IsGranted (x : External) (e : Envelope) (s : State) (chains : AccountChains)
    (g : KeyGrant) : Type 0 where
  pub same_group : g.group ≡ s.group
  pub same_key : (g.version ≡ s.key.version) × (g.enc_pub ≡ s.key.enc_pub)
  pub signer : Text
  pub granted_by : GrantedBy g s chains signer
  pub signed : verified_by x.team.keys.crypto e signer ≡ true
  pub to_reader : reads s g.to ≡ true
  pub to_key : (c : CredState) → cred s g.to ≡ some c → g.to_enc_pub ≡ c.cred.enc_pub

-- What opening a grant shows: an accepted grant that is made out to who opens it, in which the
-- group's private key is sealed.
pub record IsOpened (x : External) (o : Opening) (e : Envelope) (s : State) (chains : AccountChains)
    (me : Recipient) (priv k : Text) : Type 0 where
  pub grant : KeyGrant
  pub granted : IsGranted x e s chains grant
  pub to_me : grant.to ≡ me.id
  pub to_my_version : grant.to_key ≡ me.version
  pub to_my_key : grant.to_enc_pub ≡ hex_encode me.enc_pub
  pub plain : Text
  pub opens : o.open_box grant.box me.enc_pub priv ≡ some plain
  pub group_key : hex_encode (o.public_half k) ≡ s.key.enc_pub
  pub reader : reads s me.id ≡ true

opened-some :
    (x : External) (o : Opening) (box : Option Text) (plain : Text)
    → opened x o box ≡ ok plain
    → box ≡ some plain
opened-some x o none plain h = absurd (cc)
opened-some x o (some t) plain h = ground (arith, h)

module _ (g : KeyGrant) (s : State) (chains : AccountChains) where
  admin_key-GrantedBy : (key : Text) → admin_key g s chains ≡ ok key → GrantedBy g s chains key
  unfolding admin_key
  admin_key-GrantedBy key h =
      let (a, there, h₁) = >>=-eq-ok (admin_or_stale (active_in g.from s.admins)) _ h in
      let (cs, fetched, h₂) = >>=-eq-ok (wrapped "user chain of %s: %w" (chains g.from)) _ h₁ in
      let (_, root, h₃) =
        >>=-eq-ok (require_that (text_eq (Account.root cs) a.person.root) _) _ h₂ in
      elim (Option-cases (Account.epoch cs g.from_key)) [
        | inl absent ↦ absurd (ground arith)
        | inr (ep, present) ↦
            by_admin a cs ep (ground arith) (ground arith)
              (ground (arith, text_eq_iff (Account.root cs) a.person.root)) present (ground arith)
      ]

  key_grant_signer-GrantedBy :
      (key : Text) → key_grant_signer g s chains ≡ ok key → GrantedBy g s chains key
  unfolding key_grant_signer
  key_grant_signer-GrantedBy key h = elim (Option-cases (cred s g.from)) [
    | inl absent ↦ admin_key-GrantedBy key (ground (arith, absent))
    | inr (t, there) ↦ elim (Bool-cases (same_kind t.kind token && (g.from_key == 0))) [
      | inl of_token ↦ by_token t there (ground arith) (ground (arith, there, of_token))
      | inr of_admin ↦ admin_key-GrantedBy key (ground (arith, there, of_admin))
    ]
  ]

  check_recipient-reads : check_recipient (cred s g.to) g s ≡ ok tt → reads s g.to ≡ true
  unfolding check_recipient
  check_recipient-reads h = elim (Option-cases (cred s g.to)) [
    | inl absent ↦ ground (arith, absent)
    | inr (c, there) ↦ ground (arith, there)
  ]

  check_recipient-key :
      (c : CredState)
      → check_recipient (cred s g.to) g s ≡ ok tt
      → cred s g.to ≡ some c
      → g.to_enc_pub ≡ c.cred.enc_pub
  unfolding check_recipient
  check_recipient-key c h there = ground (arith, there, text_eq_iff g.to_enc_pub c.cred.enc_pub)

module _ (x : External) (o : Opening) (chains : AccountChains) where
  -- An accepted grant is for the group's current key, is signed by an active token of the group or
  -- with a user key, current or former, of an active admin, in a device chain with the root that
  -- the group recorded for them, and is made out to someone who reads what the group reads: for a
  -- credential, at the key that the chain names.
  pub check_key_grant-IsGranted :
      (e : Envelope) (s : State) (g : KeyGrant)
      → check_key_grant x o e s chains ≡ ok g
      → IsGranted x e s chains g
  unfolding check_key_grant check_current
  check_key_grant-IsGranted e s g h =
      let (f, read, h₁) = >>=-eq-ok (peek_key_grant x o e) _ h in
      let (_, current, h₂) = >>=-eq-ok (check_current f s) _ h₁ in
      let (key, found, h₃) = >>=-eq-ok (key_grant_signer f s chains) _ h₂ in
      let (_, signed, h₄) = >>=-eq-ok (require x.team.keys.crypto e kind_key (key ∷ [])) _ h₃ in
      let (_, made_out, done) = >>=-eq-ok (check_recipient (cred s f.to) f s) _ h₄ in
      let at : f ≡ g = ground arith in
      let accepted = (require_iff x.team.keys.crypto e kind_key (key ∷ [])).0 signed in
      subst (IsGranted x e s chains) at (record {
        same_group = ground (arith, current, text_eq_iff f.group s.group);
        same_key =
            (ground (arith, current), ground (arith, current, text_eq_iff f.enc_pub s.key.enc_pub));
        signer = key;
        granted_by = key_grant_signer-GrantedBy f s chains key found;
        signed = ground (arith, accepted.all_signed);
        to_reader = check_recipient-reads f s chains made_out;
        to_key = λ c there. check_recipient-key f s chains c made_out there;
      })

  open_payload-key :
      (plain : Text) (g : KeyGrant) (s : State) (k : Text)
      → open_payload x o plain g s ≡ ok k
      → hex_encode (o.public_half k) ≡ s.key.enc_pub
  unfolding open_payload
  open_payload-key plain g s k h =
      let (p, _, h₁) =
        >>=-eq-ok (wrapped "invalid key grant content: %w" (decode_strict o.payload plain)) _ h in
      let (_, _, h₂) =
        >>=-eq-ok
          (require_that (text_eq p.group g.group && text_eq p.to g.to && (p.version == g.version))
            _)
          _ h₁ in
      let (j, _, h₃) =
        >>=-eq-ok (or_fail (parse_key32 p.key) (new "invalid group key in the grant")) _ h₂ in
      let (_, same, done) =
        >>=-eq-ok (require_that (text_eq (hex_encode (o.public_half j)) s.key.enc_pub) _) _ h₃ in
      let at : j ≡ k = ground arith in
      ap (λ (i : Text). hex_encode (o.public_half i)) (sym at)
      ∙ (text_eq_iff (hex_encode (o.public_half j)) s.key.enc_pub).0 (ground arith)

  -- A grant that opens was accepted, is made out to who opens it, for their id, their key and its
  -- version, and they read what the group reads; and it gives the private half of the group's current
  -- key, whoever made it.
  pub open_key_grant-key :
      (e : Envelope) (s : State) (me : Recipient) (priv k : Text)
      → open_key_grant x o e s chains me priv ≡ ok k
      → IsOpened x o e s chains me priv k
  unfolding open_key_grant
  open_key_grant-key e s me priv k h =
      let (g, accepted, h₁) = >>=-eq-ok (check_key_grant x o e s chains) _ h in
      let (_, mine, h₂) = >>=-eq-ok (require_that (text_eq g.to me.id) _) _ h₁ in
      let (_, sealed, h₃) =
        >>=-eq-ok
          (require_that ((g.to_key == me.version) && text_eq g.to_enc_pub (hex_encode me.enc_pub))
            _)
          _ h₂ in
      let (plain, content, done) = >>=-eq-ok (opened x o (o.open_box g.box me.enc_pub priv)) _ h₃ in
      let to = (text_eq_iff g.to me.id).0 (ground arith) in
      record {
        grant = g;
        granted = check_key_grant-IsGranted e s g accepted;
        to_me = to;
        to_my_version = ground (arith, sealed);
        to_my_key = ground (arith, sealed, text_eq_iff g.to_enc_pub (hex_encode me.enc_pub));
        plain = plain;
        opens = opened-some x o (o.open_box g.box me.enc_pub priv) plain content;
        group_key = open_payload-key plain g s k done;
        reader = ap (reads s) (sym to) ∙ (check_key_grant-IsGranted e s g accepted).to_reader;
      }

  outdated :
      (e : Envelope) (s u : State) (g : KeyGrant)
      → check_key_grant x o e s chains ≡ ok g
      → u.group ≡ s.group
      → text_eq u.key.enc_pub s.key.enc_pub ≡ false
      → check_key_grant x o e u chains ≡ err (wrap "%w: the group has a new key since" stale)
  unfolding check_key_grant check_current
  outdated e s u g h same_group other =
      let (f, read, h₁) = >>=-eq-ok (peek_key_grant x o e) _ h in
      let (_, current, h₂) = >>=-eq-ok (check_current f s) _ h₁ in
      ground (
        arith,
        read,
        current,
        other,
        text_eq_iff f.enc_pub s.key.enc_pub,
        ap (λ (t : Text). text_eq u.key.enc_pub t) {x = f.enc_pub} {y = s.key.enc_pub},
        text_eq_iff f.enc_pub u.key.enc_pub,
        text_eq_iff u.key.enc_pub f.enc_pub,
        ap (text_eq f.group) same_group,
      )

module _ (x : External) (chains : Chains) where
  group_step-group :
      (g : Text) (s : State) (e : Envelope) (u : State)
      → step x chains s (some e) ≡ ok u
      → s.group ≡ g
      → u.group ≡ g
  group_step-group g s e u made h =
      let st = step-Stepped x chains s e u made in
      ap (λ (v : State). v.group) st.result
      ∙ (Change-SameFrame x s st.link _ st.applied st.change).group
      ∙ h

  -- Whatever links follow, once the group's key is rotated, every grant that was accepted before is
  -- refused as stale.
  pub rotated-stale :
      (o : Opening) (accounts : AccountChains) (s t u : State) (es : List (Option Envelope))
      (e grant : Envelope) (l : Link) (g : KeyGrant)
      → check_key_grant x o grant s accounts ≡ ok g
      → text_eq s.key.enc_pub [] ≡ false
      → steps x chains s es ≡ ok t
      → step x chains t (some e) ≡ ok u
      → peek_link x e ≡ ok l
      → link_type l.typ ≡ key_rotate
      → check_key_grant x o grant u accounts ≡ err (wrap "%w: the group has a new key since" stale)
  rotated-stale o accounts s t u es e grant l g accepted some_key before made read is =
      let known : is_group_key s s.key.enc_pub ≡ true =
        ground (arith, (text_eq_iff s.key.enc_pub s.key.enc_pub).1 refl) in
      let (_, other) =
        steps-IsRotated x chains s t u es e l s.key.enc_pub known some_key before made read is in
      let group_t =
        steps-keep x chains (λ v. v.group ≡ s.group) (group_step-group s.group) s es t before
          refl in
      outdated x o accounts grant s u g accepted (group_step-group s.group t e u made group_t) other

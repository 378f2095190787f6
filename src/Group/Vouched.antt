-- ===== src/Group/Vouched.antt =====
-- About the signers of a group's links, with internal/team/signers.go.
use esec_vault.Base.{
  ◌≡◌, inl, inr, refl, ap, ◌∙◌, err, Bool, true, false, Bool-cases, Option, Option-cases, some,
  Text, codes, lookup, ok, >>=-eq-ok, arith, ◌==◌, text_eq_iff, require_that, fail_if, ◌&&◌, ◌≤◌,
  Result,
}
use esec_vault.Envelope.{Envelope}
use esec_vault.Chain.State as Account
use esec_vault.Chain.State.{KeyEpoch, DelegateState, epoch_at, delegate_at, delegate_allows}
use esec_vault.Chain.Valid.{valid_user, parse_sign_key}
use esec_vault.Chain.Delegates.{delegate_kind}
use esec_vault.Team.Types.{Person}
use esec_vault.Team.External as TeamExternal
use esec_vault.Team.External.{Chains}
use esec_vault.Team.Delegate.{chain_of, recorded_account, delegate_signer, verify_delegate}
use esec_vault.Team.Signer as TeamSigner
use esec_vault.Group.Types.{InitBody, Link, LinkType, token, link_type, machine_add, Kind}
use esec_vault.Group.State.{State, PersonState, CredState, active_in, cred, expired, same_kind}
use esec_vault.Group.People.{
  People, Head, signed_as_of, creator_of, person_root, check_seq, user_key, delegator, is_server,
  delegate_unless,
}
use esec_vault.Group.Step.{
  is_machine_add, token_or, token_key, people, head_of, creator, first_person, is_init,
  known_creator,
}
use esec_vault.Group.Creds.{decode_body}
use esec_vault.Group.External.{External}
use esec_vault.Group.Frame.{active_in-found}

-- The verified device chain of a signer, with the root that the group recorded for them.
pub record IsAccount (chains : Chains) (signer root : Text) (account : Account.State) : Type 0 where
  pub fetched : chain_of chains signer ≡ ok account
  pub own : account.user ≡ signer
  pub same_root : Account.root account ≡ root

module _ (chains : Chains) (p : People) (h : Head) where
  -- The user key that was current at the position that the signer names, no earlier than before, in
  -- the account with this root.
  pub record IsUserKey (root key : Text) : Type 0 where
    pub account : Account.State
    pub known : IsAccount chains h.signer root account
    pub epoch : KeyEpoch
    pub at : epoch_at account h.signer_seq ≡ some epoch
    pub version : epoch.version ≡ h.signer_key
    pub same_key : epoch.sign_pub ≡ key
    pub in_order : signed_as_of p.seqs h.signer ≤ h.signer_seq

  recorded_account-IsAccount :
      (root : Text) (cs : Account.State)
      → chain_of chains h.signer ≡ ok cs
      → recorded_account cs h.signer root ≡ true
      → IsAccount chains h.signer root cs
  unfolding recorded_account
  recorded_account-IsAccount root cs fetched own = record {
    fetched = fetched;
    own = ground (arith, text_eq_iff cs.user h.signer);
    same_root = ground (arith, text_eq_iff (Account.root cs) root);
  }

  check_seq-order : check_seq p h ≡ ok tt → signed_as_of p.seqs h.signer ≤ h.signer_seq
  unfolding check_seq
  check_seq-order is = ground arith

  pub user_key-IsUserKey :
      (made_by : Option Person) (key : Text)
      → user_key p h made_by chains ≡ ok key
      → (root : Text) × (person_root p h made_by ≡ ok root) × IsUserKey root key
  unfolding user_key TeamSigner.signer_key
  user_key-IsUserKey made_by key is =
      let (_, _, h₁) = >>=-eq-ok (valid_user h.signer) _ is in
      let (root, rooted, h₂) = >>=-eq-ok (person_root p h made_by) _ h₁ in
      let (k, found, h₃) =
        >>=-eq-ok (TeamSigner.signer_key chains h.signer root h.signer_key h.signer_seq) _ h₂ in
      let (_, order, done) = >>=-eq-ok (check_seq p h) _ h₃ in
      let (cs, fetched, h₄) = >>=-eq-ok (chain_of chains h.signer) _ found in
      let (_, own, h₅) = >>=-eq-ok (require_that (recorded_account cs h.signer root) _) _ h₄ in
      elim (Option-cases (epoch_at cs h.signer_seq)) [
        | inl absent ↦ absurd (ground arith)
        | inr (ep, present) ↦ (
          root,
          rooted,
          record {
            account = cs;
            known = recorded_account-IsAccount root cs fetched (ground arith);
            epoch = ep;
            at = present;
            version = ground arith;
            same_key = ground arith;
            in_order = check_seq-order order;
          },
        )
      ]

  -- A delegate that was active at that position and whose scope covers the link.
  pub record IsDelegated (x : TeamExternal.External) (e : Envelope) (kind : Text)
      (scope : Result Text) (no_server : Bool) : Type 0 where
    pub admin : PersonState
    pub is_admin : active_in h.signer p.admins ≡ some admin
    pub account : Account.State
    pub known : IsAccount chains h.signer admin.person.root account
    pub chosen : DelegateState
    pub at : delegate_at account h.signer_delegate h.signer_seq ≡ some chosen
    pub needed : Text
    pub needs : scope ≡ ok needed
    pub covers : delegate_allows chosen.delegate.scope needed ≡ true
    pub verified : verify_delegate x e kind chosen ≡ ok tt
    pub in_order : signed_as_of p.seqs h.signer ≤ h.signer_seq

  pub delegate_unless-IsDelegated :
      (x : TeamExternal.External) (e : Envelope) (kind : Text) (scope : Result Text)
      (no_server : Bool)
      → delegate_unless x p e kind h chains scope no_server ≡ ok tt
      → IsDelegated x e kind scope no_server
  unfolding delegate_unless delegate_signer
  delegate_unless-IsDelegated x e kind scope no_server is =
      let (root, rooted, h₁) = >>=-eq-ok (delegator (active_in h.signer p.admins) h) _ is in
      let (_, order, h₂) = >>=-eq-ok (check_seq p h) _ h₁ in
      let (d, found, h₃) =
        >>=-eq-ok (delegate_signer chains h.signer root h.signer_delegate h.signer_seq h.ctime) _
          h₂ in
      let (_, _, h₄) =
        >>=-eq-ok (fail_if (no_server && is_server (delegate_kind d.delegate.kind)) _) _ h₃ in
      let (need, needs, h₅) = >>=-eq-ok scope _ h₄ in
      let (_, covers, verified) =
        >>=-eq-ok (require_that (delegate_allows d.delegate.scope need) _) _ h₅ in
      let (cs, fetched, h₆) = >>=-eq-ok (chain_of chains h.signer) _ found in
      let (_, own, h₇) = >>=-eq-ok (require_that (recorded_account cs h.signer root) _) _ h₆ in
      elim (Option-cases (active_in h.signer p.admins)) [
        | inl nobody ↦ absurd (ground arith)
        | inr (a, there) ↦ elim (Option-cases (delegate_at cs h.signer_delegate h.signer_seq)) [
          | inl absent ↦ absurd (ground arith)
          | inr (d₂, present) ↦
              let same : a.person.root ≡ root = ground arith in
              record {
                admin = a;
                is_admin = there;
                account = cs;
                known = recorded_account-IsAccount a.person.root cs fetched (ground (arith, same));
                chosen = d;
                at = ground arith;
                needed = need;
                needs = needs;
                covers = ground arith;
                verified = verified;
                in_order = check_seq-order order;
              }
        ]
      ]

-- The root that the group has for who signs a link with a user key: that of the creator in the first
-- link, of an active admin, or of an active member whose link is a member_remove.
pub data IsRoot (x : External) (s : State) (l : Link) (root : Text) : Type 0 where
  of_creator :
      (b : InitBody)
      → l.seq ≡ 1
      → decode_body x.init l ≡ ok b
      → b.creator.user ≡ l.signer
      → b.creator.root ≡ root
      → IsRoot x s l root
  of_admin :
      (a : PersonState)
      → lookup l.signer s.admins ≡ some a
      → a.active ≡ true
      → a.person.root ≡ root
      → IsRoot x s l root
  of_leaver :
      (m : PersonState)
      → l.typ ≡ codes "member_remove"
      → lookup l.signer s.members ≡ some m
      → m.active ≡ true
      → m.person.root ≡ root
      → IsRoot x s l root

known_creator-some :
    (x : External) (r : Result Person) (o : Option Person)
    → known_creator x r ≡ ok o
    → (p : Person) × (r ≡ ok p) × (o ≡ some p)
known_creator-some x (ok p) o h = (p, refl, ground (arith, h))
known_creator-some x (err e) o h = absurd (cc)

module _ (x : External) (s : State) (l : Link) (made_by : Option Person) (root : Text) where
  creator-IsRoot :
      (l.seq == 1) ≡ true
      → creator x l ≡ ok made_by
      → person_root (people s) (head_of l) made_by ≡ ok root
      → IsRoot x s l root
  unfolding creator first_person person_root
  creator-IsRoot first made h =
      let (p, found, same) =
        known_creator-some x (first_person x l) made_by (ground (arith, made, first)) in
      let (_, _, h₁) = >>=-eq-ok (require_that (is_init (link_type l.typ)) _) _ found in
      let (b, decoded, done) = >>=-eq-ok (decode_body x.init l) _ h₁ in
      let by : b.creator ≡ p = ground (arith, done) in
      let of : creator_of (some p) l.signer ≡ ok root = ground (arith, h, first, same) in
      of_creator b (ground (arith, first)) decoded
        (ap (λ (q : Person). q.user) by ∙ ground (arith, of, text_eq_iff p.user l.signer))
        (ap (λ (q : Person). q.root) by ∙ ground (arith, of))

  later-IsRoot :
      (l.seq == 1) ≡ false
      → person_root (people s) (head_of l) made_by ≡ ok root
      → IsRoot x s l root
  unfolding person_root
  later-IsRoot later h = elim (Option-cases (active_in l.signer s.admins)) [
    | inr (a, there) ↦
        let (at, live) = active_in-found l.signer s.admins a there in
        of_admin a at live (ground (arith, later, there, h))
    | inl absent ↦ elim (Option-cases (active_in l.signer s.members)) [
      | inl nobody ↦ absurd (ground (arith, later, absent, nobody, h))
      | inr (m, there) ↦
          let (at, live) = active_in-found l.signer s.members m there in
          of_leaver m
            (ground (arith, later, absent, there, h, text_eq_iff l.typ (codes "member_remove"))) at
            live (ground (arith, later, absent, there, h))
    ]
  ]

  pub person_root-IsRoot :
      creator x l ≡ ok made_by
      → person_root (people s) (head_of l) made_by ≡ ok root
      → IsRoot x s l root
  person_root-IsRoot made h = elim (Bool-cases (l.seq == 1)) [
    | inl first ↦ creator-IsRoot first made h
    | inr later ↦ later-IsRoot later h
  ]

-- An enrollment token of the group that enrolls a machine.
pub record IsToken (s : State) (l : Link) (key : Text) : Type 0 where
  pub token : CredState
  pub is_active : cred s l.signer ≡ some token
  pub is_token : token.kind ≡ Kind.token
  pub enrolls : link_type l.typ ≡ machine_add
  pub no_person : (l.signer_key ≡ 0) × (l.signer_seq ≡ 0)
  pub in_time : expired token l.ctime ≡ false
  pub same_key : parse_sign_key token.cred.sign_pub ≡ ok key

same_kind-token : (k : Kind) → same_kind k Kind.token ≡ true → k ≡ Kind.token
same_kind-token token is = refl
same_kind-token _ is = absurd (cc)

is_machine_add-eq : (k : LinkType) → is_machine_add k ≡ true → k ≡ machine_add
is_machine_add-eq machine_add h = refl
is_machine_add-eq _ h = absurd (cc)

pub token_key-IsToken :
    (s : State) (l : Link) (key : Text) → token_key s l ≡ ok key → IsToken s l key
unfolding token_key
token_key-IsToken s l key h =
    let (t, found, h₁) = >>=-eq-ok (token_or (cred s l.signer)) _ h in
    let (_, only, h₂) =
      >>=-eq-ok
        (require_that
          (is_machine_add (link_type l.typ) && (l.signer_key == 0) && (l.signer_seq == 0)) _)
        _ h₁ in
    let (_, live, parsed) = >>=-eq-ok (fail_if (expired t l.ctime) _) _ h₂ in
    elim (Option-cases (cred s l.signer)) [
      | inl absent ↦ absurd (ground arith)
      | inr (c, there) ↦ elim (Bool-cases (same_kind c.kind Kind.token)) [
        | inr other ↦ absurd (ground arith)
        | inl is ↦
            let at : c ≡ t = ground arith in
            record {
              token = c;
              is_active = there;
              is_token = same_kind-token c.kind is;
              enrolls = is_machine_add-eq (link_type l.typ) (ground arith);
              no_person = (ground arith, ground arith);
              in_time = ground (arith, at);
              same_key = ground (arith, at);
            }
      ]
    ]

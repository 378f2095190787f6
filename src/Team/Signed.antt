-- ===== src/Team/Signed.antt =====
-- Whose signature an accepted link of a project chain carries.
use esec_vault.Base.{
  ◌≡◌, ◌⊎◌, inl, inr, true, Bool-cases, Option-cases, some, [], ◌∷◌, Text, ok, >>=-eq-ok, arith,
  ◌==◌, text_eq, text_eq_iff, require_that, fail_if,
}
use esec_vault.Envelope.{Envelope, verified_by}
use esec_vault.Envelope.Signing.{require_iff}
use esec_vault.Chain.State as Account
use esec_vault.Chain.State.{KeyEpoch, DelegateState, epoch_at, delegate_at, delegate_allows}
use esec_vault.Team.Types.{Link}
use esec_vault.Team.State.{State, MemberState, member}
use esec_vault.Team.External.{External, Chains}
use esec_vault.Team.Delegate.{
  chain_of, recorded_account, delegate_signer, project_scope, verify_delegate,
}
use esec_vault.Team.Signer.{
  kind_link, signer_key, web_add, signer_root, check_own_key, check_delegate, check_signer,
}
use esec_vault.Team.Step.{peek_link, step}
use esec_vault.Team.Frame.{step-Stepped}

-- How a link is signed for the account that is its signer's: by the user key that was current at
-- the position it names, or by a delegate that was active there and whose scope covers it.
pub data Vouched (x : External) (s : State) (e : Envelope) (l : Link) (account : Account.State)
    : Type 0 where
  by_key :
      (ep : KeyEpoch)
      → l.signer_delegate ≡ []
      → epoch_at account l.signer_seq ≡ some ep
      → ep.version ≡ l.signer_key
      → verified_by x.keys.crypto e ep.sign_pub ≡ true
      → Vouched x s e l account
  by_delegate :
      (d : DelegateState) (scope : Text)
      → delegate_at account l.signer_delegate l.signer_seq ≡ some d
      → project_scope x s l ≡ ok scope
      → delegate_allows d.delegate.scope scope ≡ true
      → verify_delegate x e kind_link d ≡ ok tt
      → Vouched x s e l account

-- The account that a link is signed for, with the root that the signer has in the project.
pub record IsVouched (x : External) (chains : Chains) (s : State) (e : Envelope) : Type 0 where
  pub link : Link
  pub read : peek_link x e ≡ ok link
  pub account : Account.State
  pub fetched : chain_of chains link.signer ≡ ok account
  pub own : account.user ≡ link.signer
  pub by_member :
      (link.seq ≡ 1)
      ⊎ ((m : MemberState) × (member s link.signer ≡ some m)
          × (m.person.root ≡ Account.root account))
  pub vouched : Vouched x s e link account

module _ (x : External) (chains : Chains) (s : State) (e : Envelope) (l : Link) (root : Text) where
  recorded_account-eq :
      (cs : Account.State) (user : Text)
      → recorded_account cs user root ≡ true
      → (cs.user ≡ user) × (Account.root cs ≡ root)
  unfolding recorded_account
  recorded_account-eq cs user h =
      (ground (arith, text_eq_iff cs.user user), ground (arith, text_eq_iff (Account.root cs) root))

  check_own_key-Vouched :
      check_own_key x e l root chains ≡ ok tt
      → l.signer_delegate ≡ []
      → (cs : Account.State) × (chain_of chains l.signer ≡ ok cs)
        × (cs.user ≡ l.signer)
        × (Account.root cs ≡ root)
        × Vouched x s e l cs
  unfolding check_own_key signer_key
  check_own_key-Vouched h none_named =
      let (_, _, h₁) = >>=-eq-ok (fail_if (web_add x l) _) _ h in
      let (key, found, h₂) =
        >>=-eq-ok (signer_key chains l.signer root l.signer_key l.signer_seq) _ h₁ in
      let (cs, fetched, h₃) = >>=-eq-ok (chain_of chains l.signer) _ found in
      let (_, own, h₄) = >>=-eq-ok (require_that (recorded_account cs l.signer root) _) _ h₃ in
      let (same_user, same_root) = recorded_account-eq cs l.signer (ground arith) in
      let accepted = (require_iff x.keys.crypto e kind_link (key ∷ [])).0 h₂ in
      elim (Option-cases (epoch_at cs l.signer_seq)) [
        | inl absent ↦ absurd (ground arith)
        | inr (ep, present) ↦ (
          cs,
          fetched,
          same_user,
          same_root,
          by_key ep none_named present (ground arith) (ground (arith, accepted.all_signed)),
        )
      ]

  check_delegate-Vouched :
      check_delegate x s e l root chains ≡ ok tt
      → (cs : Account.State) × (chain_of chains l.signer ≡ ok cs)
        × (cs.user ≡ l.signer)
        × (Account.root cs ≡ root)
        × Vouched x s e l cs
  unfolding check_delegate delegate_signer
  check_delegate-Vouched h =
      let (_, _, h₁) = >>=-eq-ok (require_that (l.signer_key == 0) _) _ h in
      let (d, found, h₂) =
        >>=-eq-ok (delegate_signer chains l.signer root l.signer_delegate l.signer_seq l.ctime) _
          h₁ in
      let (scope, in_scope, h₃) = >>=-eq-ok (project_scope x s l) _ h₂ in
      let (_, allowed, verified) =
        >>=-eq-ok (require_that (delegate_allows d.delegate.scope scope) _) _ h₃ in
      let (cs, fetched, h₄) = >>=-eq-ok (chain_of chains l.signer) _ found in
      let (_, own, h₅) = >>=-eq-ok (require_that (recorded_account cs l.signer root) _) _ h₄ in
      let (same_user, same_root) = recorded_account-eq cs l.signer (ground arith) in
      elim (Option-cases (delegate_at cs l.signer_delegate l.signer_seq)) [
        | inl absent ↦ absurd (ground arith)
        | inr (d₂, present) ↦ (
          cs,
          fetched,
          same_user,
          same_root,
          by_delegate d scope (ground arith) in_scope (ground arith) verified,
        )
      ]

  check_signer-Vouched :
      check_signer x s e l root chains ≡ ok tt
      → (cs : Account.State) × (chain_of chains l.signer ≡ ok cs)
        × (cs.user ≡ l.signer)
        × (Account.root cs ≡ root)
        × Vouched x s e l cs
  unfolding check_signer
  check_signer-Vouched h = elim (Bool-cases (text_eq l.signer_delegate [])) [
    | inl same ↦ check_own_key-Vouched (ground arith) ((text_eq_iff l.signer_delegate []).0 same)
    | inr other ↦ check_delegate-Vouched (ground arith)
  ]

  signer_root-member :
      signer_root x s l ≡ ok root
      → (l.seq ≡ 1) ⊎ ((m : MemberState) × (member s l.signer ≡ some m) × (m.person.root ≡ root))
  unfolding signer_root
  signer_root-member h = elim (Option-cases (member s l.signer)) [
    | inl absent ↦ inl (ground arith)
    | inr (m, present) ↦ elim (Bool-cases (l.seq == 1)) [
      | inl first ↦ inl (ground arith)
      | inr later ↦ inr (m, present, ground arith)
    ]
  ]

-- Every accepted link was signed for its signer by their own account: the verified device chain of
-- that user, whose root is the one that the project recorded for the member (after the first link).
-- Either the user key that was current at the position named signed it, or a delegate that was
-- active at that position and whose scope covers the link did.
pub step-IsVouched :
    (x : External) (chains : Chains) (s : State) (e : Envelope) (u : State)
    → step x chains s (some e) ≡ ok u
    → IsVouched x chains s e
step-IsVouched x chains s e u h =
    let st = step-Stepped x chains s e u h in
    let (cs, fetched, own, same_root, vouched) =
      check_signer-Vouched x chains s e st.link st.root st.signed in
    record {
      link = st.link;
      read = st.read;
      account = cs;
      fetched = fetched;
      own = own;
      by_member =
          ground (arith, signer_root-member x chains s e st.link st.root st.rooted, same_root);
      vouched = vouched;
    }

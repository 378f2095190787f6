-- ===== src/Group/Signed.antt =====
-- About checkSigner of internal/team/group.go: the signature of a link.
use esec_vault.Base.{
  ◌≡◌, ◌⊎◌, inl, inr, true, false, Bool-cases, some, [], ◌∷◌, Text, ok, >>=-eq-ok, arith, text_eq,
  fail_if, is_ok,
}
use esec_vault.Envelope.{Envelope, verified_by}
use esec_vault.Envelope.Signing.{require_iff}
use esec_vault.Team.External.{Chains}
use esec_vault.Group.Types.{Link}
use esec_vault.Group.State.{State}
use esec_vault.Group.External.{External}
use esec_vault.Group.Valid.{valid_cred_id}
use esec_vault.Group.Step.{
  kind_link, people, head_of, creator, person_key, signer_key, web_add, group_scope, check_own_key,
  check_signer, peek_link, step,
}
use esec_vault.Group.Frame.{step-Stepped}
use esec_vault.Group.Vouched.{
  IsRoot, person_root-IsRoot, IsUserKey, user_key-IsUserKey, IsDelegated,
  delegate_unless-IsDelegated, IsToken, token_key-IsToken,
}

-- Who signed a link: a token that enrolls a machine; a person with the user key of their account; or
-- a delegate of an admin.
pub data Vouched (x : External) (chains : Chains) (s : State) (e : Envelope) (l : Link)
    : Type 0 where
  by_token :
      (key : Text)
      → IsToken s l key
      → verified_by x.team.keys.crypto e key ≡ true
      → Vouched x chains s e l
  by_person :
      (root key : Text)
      → IsRoot x s l root
      → IsUserKey chains (people s) (head_of l) root key
      → verified_by x.team.keys.crypto e key ≡ true
      → Vouched x chains s e l
  by_delegate :
      IsDelegated chains (people s) (head_of l) x.team e kind_link (group_scope x l) false
      → Vouched x chains s e l

module _ (x : External) (chains : Chains) (s : State) (e : Envelope) (l : Link) where
  pub signer_key-cases :
      (key : Text)
      → signer_key x s l chains ≡ ok key
      → IsToken s l key
        ⊎ ((root : Text) × IsRoot x s l root × IsUserKey chains (people s) (head_of l) root key)
  unfolding signer_key person_key
  signer_key-cases key h = elim (Bool-cases (is_ok (valid_cred_id l.signer))) [
    | inl of_token ↦ inl (token_key-IsToken s l key (ground arith))
    | inr of_person ↦
        let run : person_key x s l chains ≡ ok key = ground arith in
        let (made_by, made, found) = >>=-eq-ok (creator x l) _ run in
        let (root, rooted, own) =
          user_key-IsUserKey chains (people s) (head_of l) made_by key found in
        inr (root, person_root-IsRoot x s l made_by root made rooted, own)
  ]

  check_own_key-Vouched : check_own_key x s e l chains ≡ ok tt → Vouched x chains s e l
  unfolding check_own_key
  check_own_key-Vouched h =
      let (_, _, h₁) = >>=-eq-ok (fail_if (web_add x l) _) _ h in
      let (key, found, h₂) = >>=-eq-ok (signer_key x s l chains) _ h₁ in
      let accepted = (require_iff x.team.keys.crypto e kind_link (key ∷ [])).0 h₂ in
      let signed : verified_by x.team.keys.crypto e key ≡ true =
        ground (arith, accepted.all_signed) in
      elim (signer_key-cases key found) [
        | inl token ↦ by_token key token signed
        | inr (root, rooted, own) ↦ by_person root key rooted own signed
      ]

  pub delegated :
      text_eq l.signer_delegate [] ≡ false
      → check_signer x s e l chains ≡ ok tt
      → IsDelegated chains (people s) (head_of l) x.team e kind_link (group_scope x l) false
  unfolding check_signer
  delegated named h =
      delegate_unless-IsDelegated chains (people s) (head_of l) x.team e kind_link (group_scope x l)
        false (ground (arith, named))

  check_signer-Vouched : check_signer x s e l chains ≡ ok tt → Vouched x chains s e l
  unfolding check_signer
  check_signer-Vouched h = elim (Bool-cases (text_eq l.signer_delegate [])) [
    | inl unnamed ↦ check_own_key-Vouched (ground (arith, unnamed))
    | inr named ↦ by_delegate (delegated named h)
  ]

module _ (x : External) (chains : Chains) where
  -- Every accepted link of a group was signed by an active, unexpired token of the group, which
  -- enrolls a machine; or by the user key that was current, at the position named, in the
  -- verified device chain of its signer, whose root is that of an active admin, of an active
  -- member in a member_remove link, or of the creator in a first link; or by a delegate that was
  -- active at that position in an active admin's device chain, with a scope that covers the link.
  pub group_step-Vouched :
      (s : State) (e : Envelope) (u : State)
      → step x chains s (some e) ≡ ok u
      → (l : Link) × (peek_link x e ≡ ok l) × Vouched x chains s e l
  group_step-Vouched s e u made =
      let st = step-Stepped x chains s e u made in
      (st.link, st.read, check_signer-Vouched x chains s e st.link st.signed)

-- ===== src/Group/Reuse.antt =====
-- About rotations of a group's key (applyKeyRotate of internal/team/group.go).
use esec_vault.Base.{
  Bool-cases, inl, inr, ◌≡◌, refl, sym, ◌∙◌, ap, true, false, some, Option, List, [], Text, ok,
  arith, text_eq, text_eq_iff, ◌+◌, ◌%◌, ◌^◌,
}
use mathlib.Core.Path.{subst}
use esec_vault.Envelope.{Envelope}
use esec_vault.Team.External.{Chains}
use esec_vault.Group.Types.{Link, LinkType, link_type, key_rotate, GroupKey}
use esec_vault.Group.State.{State}
use esec_vault.Group.External.{External}
use esec_vault.Group.Creds.{set_key}
use esec_vault.Group.Step.{peek_link, step, steps}
use esec_vault.Group.Frame.{step-Stepped, steps-keep}
use esec_vault.Group.Admins.{set_key-result}
use esec_vault.Group.Rekey.{is_group_key, retire-same, set_key-IsNewKey}
use esec_vault.Group.Change.{Change, added_kind, created, cred_added, key_rotated}

module _ (key : Text) (not_empty : text_eq key [] ≡ false) where
  set_key-keeps :
      (s : State) (k : GroupKey) (l : Link) (t : State)
      → set_key s k l ≡ ok t
      → is_group_key s key ≡ true
      → is_group_key t key ≡ true
  set_key-keeps s k l t made h =
      subst (λ (v : State). is_group_key v key ≡ true) (sym (set_key-result s k l t made))
        (ground (arith, retire-same s key not_empty h))

  Change-keeps :
      (x : External) (s : State) (l : Link) (k : LinkType) (t : State)
      → Change x s l k t
      → is_group_key s key ≡ true
      → is_group_key t key ≡ true
  Change-keeps x s l k _ (created b t at first made) h = set_key-keeps s b.key l t made h
  Change-keeps x s l k _ (key_rotated k' t version made) h = set_key-keeps s k' l t made h
  Change-keeps x s l k _ _ h = h

  step-keeps :
      (x : External) (chains : Chains) (s : State) (e : Envelope) (u : State)
      → step x chains s (some e) ≡ ok u
      → is_group_key s key ≡ true
      → is_group_key u key ≡ true
  step-keeps x chains s e u made h =
      let st = step-Stepped x chains s e u made in
      rw st.result (Change-keeps x s st.link _ st.applied st.change h)

-- What a rotation makes of the group's key.
pub record IsRotated (s u : State) : Type 0 where
  pub unused : is_group_key s u.key.enc_pub ≡ false
  pub version : u.key.version ≡ (s.key.version + 1) % 2 ^ 64
  pub forgotten : u.key_exposed ≡ []

module _ (x : External) (s : State) (l : Link) where
  set_key-IsRotated :
      (k : GroupKey) (t : State)
      → k.version ≡ (s.key.version + 1) % 2 ^ 64
      → set_key s k l ≡ ok t
      → IsRotated s t
  set_key-IsRotated k t version made =
      subst (IsRotated s) (sym (set_key-result s k l t made)) (record {
        unused = (set_key-IsNewKey s k l t made).unused;
        version = version;
        forgotten = refl;
      })

  Change-IsRotated : (k : LinkType) (t : State) → Change x s l k t → k ≡ key_rotate → IsRotated s t
  Change-IsRotated _ _ (key_rotated k t version made) is = set_key-IsRotated k t version made
  Change-IsRotated _ t (cred_added k c kind join adds may fresh keys group) is =
      absurd (cc (adds, ap added_kind is))
  Change-IsRotated _ _ _ is = absurd (cc)

module _ (x : External) (chains : Chains) where
  -- Once a group had a key, whatever links follow, an accepted key_rotate link sets another one,
  -- which the group neither has nor had; its version is one higher modulo 2^64, and nobody is noted
  -- as holding it.
  pub steps-IsRotated :
      (s t u : State) (es : List (Option Envelope)) (e : Envelope) (l : Link) (key : Text)
      → is_group_key s key ≡ true
      → text_eq key [] ≡ false
      → steps x chains s es ≡ ok t
      → step x chains t (some e) ≡ ok u
      → peek_link x e ≡ ok l
      → link_type l.typ ≡ key_rotate
      → IsRotated t u × (text_eq u.key.enc_pub key ≡ false)
  steps-IsRotated s t u es e l key known not_empty before made read is =
      let st = step-Stepped x chains t e u made in
      let same : st.link ≡ l = ground (arith, st.read, read) in
      let rotated =
        Change-IsRotated x t st.link _ st.applied st.change
          (ap (λ (m : Link). link_type m.typ) same ∙ is) in
      let still =
        steps-keep x chains (λ v. is_group_key v key ≡ true) (step-keeps key not_empty x chains) s
          es t before known in
      let turned : IsRotated t u = rw st.result (record {
        unused = rotated.unused;
        version = rotated.version;
        forgotten = rotated.forgotten;
      }) in
      (
        turned,
        elim (Bool-cases (text_eq u.key.enc_pub key)) [
          | inl back ↦
              let at = ap (is_group_key t) ((text_eq_iff u.key.enc_pub key).0 back) in
              absurd (ground (arith, turned.unused, still, at))
          | inr apart ↦ apart
        ],
      )

-- ===== src/Group/Exposed.antt =====
-- Who is noted in State.KeyExposed (noteExposed and the handlers of internal/team/group.go).
use esec_vault.Base.{
  codes, ◌≡◌, sym, ap, Bool, true, false, ◌⊎◌, inl, inr, some, Option, List, [], ◌∷◌, ◌++◌, Text,
  ok, arith, lookup, any, any-append, text_eq, lookup-insert, if◌then◌else◌, Bool-cases,
}
use mathlib.Core.Path.{subst}
use esec_vault.Envelope.{Envelope}
use esec_vault.Team.State.{Exposure}
use esec_vault.Team.External.{Chains}
use esec_vault.Group.Types.{Link, LinkType, GroupKey}
use esec_vault.Group.State.{kind_text, State, CredState, admin, member, holds_key, cred}
use esec_vault.Group.External.{External}
use esec_vault.Group.Creds.{set_key, exposure}
use esec_vault.Group.Step.{step, verify}
use esec_vault.Group.Frame.{step-Stepped}
use esec_vault.Group.Admins.{set_key-result}
use esec_vault.Group.Rekey.{set_key-IsNewKey}
use esec_vault.Group.Named.{verify-IsNamed}
use esec_vault.Group.Removal.{
  reads, Removal, admin_gone, member_gone, cred_gone, gone_cred, Change-Removal,
}
use esec_vault.Group.Change.{
  Change, created, admin_removed, member_removed, cred_removed, key_rotated,
}

abbrev pub noted : Text → List Exposure → Bool
noted h = any (λ (e : Exposure). text_eq e.holder h)

-- a credential that was taken out with its keys
abbrev pub IsDestroyed : State → Text → Type 0
IsDestroyed s h = (c : CredState) × (lookup h s.creds ≡ some c) × (c.destroyed ≡ true)

noted-last :
    (h : Text) (es : List Exposure) (e : Exposure)
    → text_eq e.holder h ≡ true
    → noted h (es ++ e ∷ []) ≡ true
noted-last h es e is =
    ground (arith, is, any-append (λ (d : Exposure). text_eq d.holder h) es (e ∷ []))

noted-first :
    (h : Text) (es : List Exposure) (e : Exposure)
    → noted h es ≡ true
    → noted h (es ++ e ∷ []) ≡ true
noted-first h es e is =
    ground (arith, is, any-append (λ (d : Exposure). text_eq d.holder h) es (e ∷ []))

module _ (s : State) (l : Link) (h : Text) where
  Removal-noted : (t : State) → Removal s l h t → (noted h t.key_exposed ≡ true) ⊎ IsDestroyed t h
  Removal-noted _ (admin_gone user why a at is) =
      inl (noted-last h s.key_exposed (exposure a.person.user a.person.login l why) is)
  Removal-noted _ (member_gone user why m at is) =
      inl (noted-last h s.key_exposed (exposure m.person.user m.person.login l why) is)
  Removal-noted _ (cred_gone b c why at is) = elim (Bool-cases b.destroyed) [
    | inl destroyed ↦ inr (
      gone_cred b c l,
      ground (arith, at, lookup-insert b.id h (gone_cred b c l) s.creds),
      destroyed,
    )
    | inr kept ↦ inl (
        subst
          (λ (d : Bool).
            noted h (
              if d
              then s.key_exposed
              else s.key_exposed ++ exposure c.cred.id c.cred.name l why ∷ [])
            ≡ true)
          (sym kept) (noted-last h s.key_exposed (exposure c.cred.id c.cred.name l why) is))
  ]

module _ (x : External) (s : State) (l : Link) (h : Text) where
  new_key :
      (k : GroupKey) (t : State)
      → set_key s k l ≡ ok t
      → text_eq t.key.enc_pub s.key.enc_pub ≡ false
  new_key k t made = ground (
    arith,
    ap (λ (v : State). text_eq v.key.enc_pub s.key.enc_pub) (set_key-result s k l t made),
    (set_key-IsNewKey s k l t made).unused,
  )

  -- who is noted stays noted, unless the group has a new key
  Change-kept :
      (k : LinkType) (t : State)
      → Change x s l k t
      → noted h s.key_exposed ≡ true
      → (noted h t.key_exposed ≡ true) ⊎ (text_eq t.key.enc_pub s.key.enc_pub ≡ false)
  Change-kept k _ (created b t at first made) is = inr (new_key b.key t made)
  Change-kept k _ (admin_removed b a present kept) is = inl (
      noted-first h s.key_exposed (exposure a.person.user a.person.login l (codes "admin removed"))
        is)
  Change-kept k _ (member_removed b m why present may) is =
      inl (noted-first h s.key_exposed (exposure m.person.user m.person.login l why) is)
  Change-kept k t (cred_removed b c decoded present) is = elim (Bool-cases b.destroyed) [
    | inl destroyed ↦ inl (ground (arith, is, destroyed))
    | inr kept ↦ inl (
        subst
          (λ (d : Bool).
            noted h (
              if d
              then s.key_exposed
              else s.key_exposed
                ++ exposure c.cred.id c.cred.name l (kind_text c.kind ++ codes " removed") ∷ [])
            ≡ true)
          (sym kept) (noted-first h s.key_exposed _ is))
  ]
  Change-kept k _ (key_rotated key t version made) is = inr (new_key key t made)
  Change-kept k _ _ is = inl is

-- What a link does to the note of who may hold the group's key.
pub record IsNoted (s u : State) (h : Text) : Type 0 where
  pub lost : reads s h ≡ true → reads u h ≡ false → (noted h u.key_exposed ≡ true) ⊎ IsDestroyed u h
  pub kept :
      noted h s.key_exposed ≡ true
      → (noted h u.key_exposed ≡ true) ⊎ (text_eq u.key.enc_pub s.key.enc_pub ≡ false)

module _ (x : External) (chains : Chains) where
  -- In a group whose chain is accepted, an accepted link that takes the group's key from an admin,
  -- member, machine, token or workload notes them as holding it, unless it says that the
  -- credential's keys were destroyed; and whoever was noted stays noted until the group has
  -- another key.
  pub group_step-IsNoted :
      (group : Text) (es : List (Option Envelope)) (s : State) (e : Envelope) (u : State) (h : Text)
      → verify x chains group es ≡ ok s
      → step x chains s (some e) ≡ ok u
      → IsNoted s u h
  unfolding holds_key admin member cred
  group_step-IsNoted group es s e u h before made =
      let st = step-Stepped x chains s e u made in
      let named = verify-IsNamed x chains group es s before in
      rw st.result (record {
        lost = λ was gone.
            Removal-noted s st.link h _
              (Change-Removal x s st.link h _ st.applied st.change named was gone);
        kept = λ is. Change-kept x s st.link h _ st.applied st.change is;
      })

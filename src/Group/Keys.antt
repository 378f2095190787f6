-- ===== src/Group/Keys.antt =====
-- About setKey and checkCred of internal/team/group.go: the group's keys and those of its
-- credentials.
use esec_vault.Base.{
  Entries-any_value, ℕ, ◌+◌, ◌-◌, ◌≡◌, refl, sym, ap, Bool, true, false, ◌||◌, some, Option, List,
  [], ◌∷◌, Text, ok, arith, lookup, insert, Dict, any_value, text_eq, text_eq_iff, if◌then◌else◌,
  Bool-cases, inl, inr, Entries, Entries-lookup, Entries-insert, Option-cases,
}
use mathlib.Core.Path.{subst}
use esec_vault.Envelope.{Envelope}
use esec_vault.Chain.Valid.{parse_key32, hex_decode}
use esec_vault.Kms as Kms
use esec_vault.Team.State.{Exposure}
use esec_vault.Team.External.{Chains}
use esec_vault.Group.Types.{Link, LinkType, GroupKey}
use esec_vault.Group.State.{State, CredState}
use esec_vault.Group.External.{External}
use esec_vault.Group.Valid.{kms_name}
use esec_vault.Group.Creds.{was_retired, uses_key, retire, set_key, new_cred}
use esec_vault.Group.Step.{step, verify}
use esec_vault.Group.Frame.{cred-found, step-Stepped, verify-keep}
use esec_vault.Group.Admins.{set_key-result}
use esec_vault.Group.Change.{
  Change, created, cred_added, workload_rekeyed, cred_removed, key_rotated,
}
use esec_vault.Group.Rekey.{
  is_group_key, has_group_key, is_key, retire-other, rekeyed, IsNewKey, set_key-IsNewKey,
}

module _ {ℓ} {V : Type ℓ} where
  any_value-insert_none :
      (p : V → Bool) (k : Text) (v : V) (m : Dict V)
      → any_value p m ≡ false
      → p v ≡ false
      → any_value p (insert k v m) ≡ false
  unfolding any_value insert
  any_value-insert_none p k v [] h n = ground arith
  any_value-insert_none p k v ((j, w) ∷ m) h n = ground (arith, any_value-insert_none p k v m)

  any_value-neither :
      (p q r : V → Bool) (m : Dict V)
      → ((v : V) → p v ≡ false → q v ≡ false → r v ≡ false)
      → any_value p m ≡ false
      → any_value q m ≡ false
      → any_value r m ≡ false
  unfolding any_value
  any_value-neither p q r [] f h k = refl
  any_value-neither p q r ((j, w) ∷ m) f h k = ground (arith, f w, any_value-neither p q r m f)

-- the name of a service's key is no such text
is_key-kms_name : (x : External) (k : Kms.Key) → is_key (kms_name x k) ≡ false
unfolding parse_key32 hex_decode Kms.fingerprint
is_key-kms_name x k = refl

kms_name-some : (x : External) (k : Kms.Key) → text_eq (kms_name x k) [] ≡ false
unfolding text_eq Kms.fingerprint
kms_name-some x k = refl

-- No credential has a key that the group has or had, and the current key is not a former one.
pub record IsSeparate (s : State) : Type 0 where
  pub creds : any_value (has_group_key s) s.creds ≡ false
  pub current : was_retired s s.key.enc_pub ≡ false
  pub key : text_eq s.key.enc_pub [] || is_key s.key.enc_pub ≡ true
  pub former : Entries (λ k b. is_key k ≡ true) s.retired

former-retire : (s : State) → IsSeparate s → Entries (λ k b. is_key k ≡ true) (retire s)
former-retire s h = elim (Bool-cases (text_eq s.key.enc_pub [])) [
  | inl none_yet ↦
      subst
        (λ (b : Bool).
          Entries (λ k b. is_key k ≡ true)
            (if b then s.retired else insert s.key.enc_pub true s.retired))
        (sym none_yet) h.former
  | inr some_key ↦
      subst
        (λ (b : Bool).
          Entries (λ k b. is_key k ≡ true)
            (if b then s.retired else insert s.key.enc_pub true s.retired))
        (sym some_key)
        (Entries-insert (λ k b. is_key k ≡ true) s.key.enc_pub true s.retired
          (ground (arith, h.key, some_key)) h.former)
]

rekeyed-IsSeparate :
    (s : State) (k : GroupKey) (l : Link) → IsNewKey s k → IsSeparate s → IsSeparate (rekeyed s k l)
rekeyed-IsSeparate s k l n h = record {
  creds =
      any_value-neither (has_group_key s) (uses_key k.enc_pub) (has_group_key (rekeyed s k l))
        s.creds (λ c apart other. ground (arith, apart, other, retire-other s c.cred.enc_pub apart))
        h.creds n.no_cred;
  current = retire-other s k.enc_pub n.unused;
  key = ground (arith, n.parses);
  former = former-retire s h;
}

-- a text that is no key is no group key
other-group_key :
    (s : State) (name : Text)
    → IsSeparate s
    → is_key name ≡ false
    → text_eq name [] ≡ false
    → is_group_key s name ≡ false
other-group_key s name h other some_text =
    let not_current : text_eq name s.key.enc_pub ≡ false =
      elim (Bool-cases (text_eq name s.key.enc_pub)) [
        | inl same ↦
            let at = (text_eq_iff name s.key.enc_pub).0 same in
            ground
              (arith, h.key, other, some_text, ap is_key at, ap (λ (t : Text). text_eq t []) at)
        | inr apart ↦ apart
      ] in
    elim (Option-cases (lookup name s.retired)) [
      | inl absent ↦ ground (arith, not_current, absent)
      | inr (b, there) ↦
          let key = Entries-lookup (λ k b. is_key k ≡ true) s.retired name b h.former there in
          absurd (ground (arith, key, other))
    ]

cred-no_group_key :
    (s : State) (id : Text) (c : CredState)
    → IsSeparate s
    → lookup id s.creds ≡ some c
    → has_group_key s c ≡ false
cred-no_group_key s id c h there =
    Entries-lookup (λ k v. has_group_key s v ≡ false) s.creds id c
      (Entries-any_value (has_group_key s) s.creds h.creds) there

module _ (x : External) (s : State) (l : Link) where
  -- with other credentials
  with_creds-IsSeparate :
      (id : Text) (c : CredState) (n : ℕ) (noted : List Exposure)
      → IsSeparate s
      → has_group_key s c ≡ false
      → IsSeparate (record s { creds = insert id c s.creds; active = n; key_exposed = noted })
  with_creds-IsSeparate id c n noted h apart = record {
    creds = any_value-insert_none (has_group_key s) id c s.creds h.creds apart;
    current = h.current;
    key = h.key;
    former = h.former;
  }

  set_key-IsSeparate :
      (k : GroupKey) (t : State) → set_key s k l ≡ ok t → IsSeparate s → IsSeparate t
  set_key-IsSeparate k t made h =
      subst IsSeparate (sym (set_key-result s k l t made))
        (rekeyed-IsSeparate s k l (set_key-IsNewKey s k l t made) h)

  Change-IsSeparate : (k : LinkType) (t : State) → Change x s l k t → IsSeparate s → IsSeparate t
  Change-IsSeparate k _ (created b t at first made) h =
      let g = set_key-IsSeparate b.key t made h in
      record { creds = g.creds; current = g.current; key = g.key; former = g.former }
  Change-IsSeparate _ _ (cred_added k c kind join adds may fresh keys group) h =
      with_creds-IsSeparate c.id (new_cred c kind join l) (s.active + 1) s.key_exposed h group
  Change-IsSeparate k _ (workload_rekeyed id key c present is) h =
      with_creds-IsSeparate id
        (record c { cred = record c.cred { kms = some key; enc_pub = kms_name x key } }) s.active
        s.key_exposed h
        (other-group_key s (kms_name x key) h (is_key-kms_name x key) (kms_name-some x key))
  Change-IsSeparate k _ (cred_removed b c decoded present) h =
      with_creds-IsSeparate b.id
        (record c {
          active = false;
          removed_seq = l.seq;
          removed_time = l.ctime;
          destroyed = b.destroyed;
          reason = b.reason;
        })
        (s.active - 1) _ h (cred-no_group_key s b.id c h (cred-found s b.id c present).0)
  Change-IsSeparate k _ (key_rotated key t version made) h = set_key-IsSeparate key t made h
  Change-IsSeparate k _ _ h = record {
    creds = h.creds;
    current = h.current;
    key = h.key;
    former = h.former;
  }

module _ (x : External) (chains : Chains) where
  step-IsSeparate :
      (s : State) (e : Envelope) (u : State)
      → step x chains s (some e) ≡ ok u
      → IsSeparate s
      → IsSeparate u
  step-IsSeparate s e u made h =
      let st = step-Stepped x chains s e u made in
      let g = Change-IsSeparate x s st.link _ st.applied st.change h in
      rw st.result (record { creds = g.creds; current = g.current; key = g.key; former = g.former })

  -- In a group whose chain is accepted, no credential has a key that is or was the group's, and the
  -- group's key is not a former one; that key, where there is one, and every former one is the text
  -- of a 32-byte key.
  pub group_verify-IsSeparate :
      (group : Text) (es : List (Option Envelope)) (u : State)
      → verify x chains group es ≡ ok u
      → IsSeparate u
  unfolding any_value lookup text_eq
  group_verify-IsSeparate group es u made =
      verify-keep x chains IsSeparate step-IsSeparate group es u made
        (record { creds = refl; current = refl; key = refl; former = tt })

-- ===== src/Chain/Same.antt =====
-- What an accepted link does depends on its message alone, not on which signatures it carries.
use esec_vault.Base.{
  ◌≡◌, refl, Bool-cases, inl, inr, some, ok, arith, ◌==◌, if◌then◌else◌, text_eq_iff, true,
}
use esec_vault.Envelope.{Envelope, message, hash, decode, decode_strict, kind_pattern}
use esec_vault.Envelope.Message.{message_injective}
use esec_vault.Chain.Types.{Link, LinkType, link_type, init, device_add, ukey_rotate}
use esec_vault.Chain.State.{State}
use esec_vault.Chain.Valid.{kind_link}
use esec_vault.Chain.External.{External}
use esec_vault.Chain.Step.{
  apply_init, apply_rotate, apply_current, apply_as, apply, read_link, step,
}
use esec_vault.Chain.Frame.{step-Stepped}

abbrev pub SameMessage : Envelope → Envelope → Type 0
SameMessage e f = message e.kind e.body ≡ message f.kind f.body

kind_link_pattern : kind_pattern kind_link ≡ true
unfolding kind_pattern
kind_link_pattern = refl

read_link-kind :
    (x : External) (e : Envelope) (l : Link) → read_link x e ≡ ok l → kind_pattern e.kind ≡ true
unfolding read_link
read_link-kind x e l h =
    let of_kind : e.kind ≡ kind_link = ground (arith, text_eq_iff e.kind kind_link) in
    rw of_kind kind_link_pattern

read_link-body :
    (x : External) (e f : Envelope) (l m : Link)
    → e.body ≡ f.body
    → read_link x e ≡ ok l
    → read_link x f ≡ ok m
    → l ≡ m
unfolding read_link decode decode_strict
read_link-body x e f l m same h k = ground arith

-- Two links with one message are read as the same link.
pub read_link-same :
    (x : External) (e f : Envelope) (l m : Link)
    → SameMessage e f
    → read_link x e ≡ ok l
    → read_link x f ≡ ok m
    → l ≡ m
read_link-same x e f l m same h k =
    read_link-body x e f l m
      (message_injective e.kind f.kind e.body f.body (read_link-kind x e l h)
        (read_link-kind x f m k) same).1
      h k

module _ (x : External) (s : State) (e f : Envelope) where
  apply_init-same :
      (l : Link) (t u : State) → apply_init x s e l ≡ ok t → apply_init x s f l ≡ ok u → t ≡ u
  unfolding apply_init
  apply_init-same l t u h k = ground arith

  apply_rotate-same :
      (l : Link) (t u : State) → apply_rotate x s e l ≡ ok t → apply_rotate x s f l ≡ ok u → t ≡ u
  unfolding apply_rotate
  apply_rotate-same l t u h k = ground arith

  apply_current-same :
      (j : LinkType) (l : Link) (t u : State)
      → apply_current x j s e l ≡ ok t
      → apply_current x j s f l ≡ ok u
      → t ≡ u
  unfolding apply_current
  apply_current-same j l t u h k = ground arith

  apply_as-same :
      (j : LinkType) (l : Link) (t u : State)
      → apply_as x j s e l ≡ ok t
      → apply_as x j s f l ≡ ok u
      → t ≡ u
  unfolding apply_as
  apply_as-same init l t u h k = absurd (cc)
  apply_as-same ukey_rotate l t u h k = apply_rotate-same l t u h k
  apply_as-same device_add l t u h k = apply_current-same device_add l t u h k
  apply_as-same j l t u h k = apply_current-same j l t u h k

  apply-same : (l : Link) (t u : State) → apply x s e l ≡ ok t → apply x s f l ≡ ok u → t ≡ u
  unfolding apply
  apply-same l t u h k = apply_as-same (link_type l.typ) l t u h k

  run-same :
      (l : Link) (t u : State)
      → (if l.seq == 1 then apply_init x s e l else apply x s e l) ≡ ok t
      → (if l.seq == 1 then apply_init x s f l else apply x s f l) ≡ ok u
      → t ≡ u
  run-same l t u h k = elim (Bool-cases (l.seq == 1)) [
    | inl one ↦ apply_init-same l t u (ground arith) (ground arith)
    | inr more ↦ apply-same l t u (ground arith) (ground arith)
  ]

  -- Two links with one message, accepted after the same state, give the same state.
  pub step-same :
      (t u : State) → SameMessage e f → step x s (some e) ≡ ok t → step x s (some f) ≡ ok u → t ≡ u
  unfolding hash
  step-same t u same h k =
      let one = step-Stepped x s e t h in
      let other = step-Stepped x s f u k in
      let links = read_link-same x e f one.link other.link same one.read other.read in
      let applied = run-same one.link one.applied other.applied one.run (rw links other.run) in
      let hashes : hash x.crypto e ≡ hash x.crypto f = cc same in
      cc (one.result, other.result, links, applied, hashes)

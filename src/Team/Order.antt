-- ===== src/Team/Order.antt =====
-- A signer's positions never go back, so a key that its owner has replaced signs nothing more once
-- the owner has signed as of a later position.
use esec_vault.Base.{
  ◌≤◌, ◌≡◌, ap, some, none, Option, List, [], ◌∷◌, Text, ok, arith, >>=-eq-ok, lookup-insert,
  text_eq_iff, wrapped,
}
use esec_vault.Envelope.{Envelope}
use esec_vault.Team.Types.{Link}
use esec_vault.Team.State.{State}
use esec_vault.Team.External.{External, Chains}
use esec_vault.Team.Step.{signer_seq, peek_link, step, steps}
use esec_vault.Team.Frame.{step-Stepped, step_nil}
use esec_vault.Team.Change.Frame.{Change-SameFrame}
use esec_vault.Team.Change.Refines.{apply_type-Change}

module _ (x : External) (chains : Chains) where
  -- An accepted link's signer has signed as of its position from then on, and no earlier before.
  pub step-signer_seq :
      (s : State) (e : Envelope) (l : Link) (u : State)
      → step x chains s (some e) ≡ ok u
      → peek_link x e ≡ ok l
      → (signer_seq s l.signer ≤ l.signer_seq) × (signer_seq u l.signer ≡ l.signer_seq)
  unfolding signer_seq
  step-signer_seq s e l u h read =
      let st = step-Stepped x chains s e u h in
      let same : st.link ≡ l = ground (arith, st.read, read) in
      let now = lookup-insert l.signer l.signer l.signer_seq st.applied.signer_seqs in
      (
        ground (arith, st.later, same),
        ground (arith, st.result, same, now, text_eq_iff l.signer l.signer),
      )

  step-later :
      (s : State) (e : Envelope) (u : State) (user : Text)
      → step x chains s (some e) ≡ ok u
      → signer_seq s user ≤ signer_seq u user
  unfolding signer_seq
  step-later s e u user h =
      let st = step-Stepped x chains s e u h in
      let l = st.link in
      let kept =
        (Change-SameFrame x s l _ st.applied
          (apply_type-Change x s l st.applied _ st.run)).signer_seqs in
      let now = lookup-insert l.signer user l.signer_seq st.applied.signer_seqs in
      ground (arith, st.result, st.later, kept, now, text_eq_iff l.signer user)

  steps-later :
      (s : State) (es : List (Option Envelope)) (u : State) (user : Text)
      → steps x chains s es ≡ ok u
      → signer_seq s user ≤ signer_seq u user
  unfolding steps
  steps-later s [] u user h = ground arith
  steps-later s (none ∷ es) u user h = absurd (ground (arith, step_nil x chains s))
  steps-later s (some e ∷ es) u user h =
      let (t, one, rest) =
        >>=-eq-ok (wrapped "project chain link %d: %w" (step x chains s (some e))) _ h in
      let made : step x chains s (some e) ≡ ok t = ground arith in
      ground (arith, step-later s e t user made, steps-later t es u user rest)

  -- After a link that a member signed as of a position of their device chain, no later link of
  -- theirs is accepted that was signed as of an earlier position.
  pub steps-later-signer :
      (s t u v : State) (e f : Envelope) (es : List (Option Envelope)) (k l : Link)
      → step x chains s (some e) ≡ ok t
      → peek_link x e ≡ ok k
      → steps x chains t es ≡ ok u
      → step x chains u (some f) ≡ ok v
      → peek_link x f ≡ ok l
      → k.signer ≡ l.signer
      → k.signer_seq ≤ l.signer_seq
  steps-later-signer s t u v e f es k l first read_k between last read_l same =
      let (_, set) = step-signer_seq s e k t first read_k in
      let (held, _) = step-signer_seq u f l v last read_l in
      ground (arith, set, held, steps-later t es u k.signer between, ap (signer_seq u) same)

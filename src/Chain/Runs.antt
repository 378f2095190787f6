-- ===== src/Chain/Runs.antt =====
-- Induction over the links that extend a chain after its first.
use esec_vault.Base.{
  ℕ, suc, ◌+◌, ◌<◌, ◌≤◌, ◌≡◌, ◌^◌, sym, some, none, Option, List, [], ◌∷◌, Text, ok, >>=-eq-ok,
  arith, length, wrapped,
}
use mathlib.Core.Path.{subst}
use esec_vault.Envelope.{Envelope, hash}
use esec_vault.Chain.Types.{Link}
use esec_vault.Chain.State.{State}
use esec_vault.Chain.External.{External}
use esec_vault.Chain.Step.{step, steps, apply}
use esec_vault.Chain.Invariant.{IsWellFormed}
use esec_vault.Chain.Change.{Change}
use esec_vault.Chain.Change.Refines.{apply-Change}
use esec_vault.Chain.Frame.{recorded, step-Stepped}
use esec_vault.Chain.WellFormed.{step-IsWellFormed, check_link-seq, step_nil}

module _ (x : External) (P : State → Type 0) (low : ℕ)
    (change : (t v : State) (n : ℕ)
      → IsWellFormed t
      → low ≤ t.seq
      → n ≡ suc t.seq
      → Change t n v
      → P t
      → P v)
    (note : (v : State) (h : Text) (l : Link) → P v → P (recorded v h l)) where
  step-keeps :
      (s : State) (e : Envelope) (u : State)
      → IsWellFormed s
      → 0 < s.seq
      → low ≤ s.seq
      → s.seq + 1 < 2 ^ 64
      → step x s (some e) ≡ ok u
      → P s
      → P u
  step-keeps s e u wf pos le small h p =
      let st = step-Stepped x s e u h in
      let l = st.link in
      let at = check_link-seq x s l st.checked small in
      let made : apply x s e l ≡ ok st.applied = ground (arith, st.run, at) in
      subst P (sym st.result) (
        note st.applied (hash x.crypto e) l
          (change s st.applied l.seq wf le at (apply-Change x s l st.applied e made) p))

  pub steps-keeps :
      (s : State) (es : List (Option Envelope)) (u : State)
      → IsWellFormed s
      → 0 < s.seq
      → low ≤ s.seq
      → s.seq + length es < 2 ^ 64
      → steps x s es ≡ ok u
      → P s
      → P u
  unfolding steps
  steps-keeps s [] u wf pos le small h p = let same : s ≡ u = cc in subst P same p
  steps-keeps s (none ∷ es) u wf pos le small h p = absurd (ground (arith, step_nil x s))
  steps-keeps s (some e ∷ es) u wf pos le small h p =
      let (t, one, rest) = >>=-eq-ok (wrapped "chain link %d: %w" (step x s (some e))) _ h in
      let made : step x s (some e) ≡ ok t = ground arith in
      let (wf', at) = step-IsWellFormed x s e t wf (omega arith) made in
      steps-keeps t es u wf' (omega arith) (omega arith) (omega arith) rest
        (step-keeps s e t wf pos le (omega arith) made p)

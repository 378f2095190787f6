-- ===== src/Chain/Epochs.antt =====
-- `EpochAt`: the user key that was current at a position, as other parties ask for it later.
use esec_vault.Base.{
  ℕ, suc, ◌+◌, ◌<◌, ◌≤◌, ◌≡◌, ◌^◌, ◌∙◌, refl, Option, some, List, [], ◌∷◌, ◌++◌, ok, arith,
  Option-cases, inl, inr, length, get_last?,
}
use esec_vault.Envelope.{Envelope}
use esec_vault.Chain.State.{State, KeyEpoch, epoch_at, epoch_before}
use esec_vault.Chain.External.{External}
use esec_vault.Chain.Step.{steps}
use esec_vault.Chain.Invariant.{Epochs, IsCurrent, IsWellFormed}
use esec_vault.Chain.Change.{Change, device_added, rotated}
use esec_vault.Chain.WellFormed.{steps-IsWellFormed}
use esec_vault.Chain.Runs.{steps-keeps}

-- A later epoch does not change what is found before it.
epoch_before-append :
    (q : ℕ) (ks : List KeyEpoch) (k : KeyEpoch)
    → q < k.seq
    → epoch_before q (ks ++ k ∷ []) ≡ epoch_before q ks
unfolding epoch_before
epoch_before-append q [] k later = ground arith
epoch_before-append q (j ∷ ks) k later = rw (epoch_before-append q ks k later)

last_some : (j : KeyEpoch) (ks : List KeyEpoch) → (m : KeyEpoch) × (get_last? (j ∷ ks) ≡ some m)
last_some j [] = (j, refl)
last_some j (k ∷ ks) = last_some k ks

-- From the last position on, the last epoch is found.
epoch_before-last :
    (v low high : ℕ) (ks : List KeyEpoch)
    → Epochs v low high ks
    → epoch_before high ks ≡ get_last? ks
unfolding epoch_before
epoch_before-last v low high [] h = refl
epoch_before-last v low high (k ∷ []) h = ground arith
epoch_before-last v low high (k ∷ (j ∷ ks)) h =
    ground (arith, epoch_before-last (suc v) k.seq high (j ∷ ks) h.2, last_some j ks)

Change-epoch_before :
    (q n : ℕ) {t v : State}
    → Change t n v
    → q < n
    → epoch_before q v.epochs ≡ epoch_before q t.epochs
Change-epoch_before q n {t} (rotated keep k _ _ _ _ _ at) lt =
    epoch_before-append q t.epochs k (omega arith)
Change-epoch_before q n (device_added _ _ _ _ _ _) lt = refl
Change-epoch_before q n _ lt = refl

module _ (x : External) (s : State) (es : List (Option Envelope)) (u : State) where
  steps-epoch_before :
      (q : ℕ)
      → IsWellFormed s
      → 0 < s.seq
      → s.seq + length es < 2 ^ 64
      → steps x s es ≡ ok u
      → q ≤ s.seq
      → epoch_before q u.epochs ≡ epoch_before q s.epochs
  steps-epoch_before q wf pos small run le =
      steps-keeps x (λ t. epoch_before q t.epochs ≡ epoch_before q s.epochs) q
        (λ t v n _ low at c p. Change-epoch_before q n c (omega arith) ∙ p) (λ v h l p. p) s es u wf
        pos le small run refl

  -- Once a chain had the links that give `s`, whatever follows, `epoch_at` finds for that position
  -- an epoch, with the user key that was current then.
  pub epoch_at-steps :
      IsWellFormed s
      → 0 < s.seq
      → s.seq + length es < 2 ^ 64
      → steps x s es ≡ ok u
      → (k : KeyEpoch) × (epoch_at u s.seq ≡ some k)
        × (k.enc_pub ≡ s.enc_pub)
        × (k.sign_pub ≡ s.sign_pub)
        × (k.version ≡ s.ukey_version)
  unfolding epoch_at
  epoch_at-steps wf pos small run =
      let epochs = wf.epochs pos in
      let later = (steps-IsWellFormed x s es u wf small run).1 in
      let found =
        steps-epoch_before s.seq wf pos small run (omega arith)
        ∙ epoch_before-last 1 0 s.seq s.epochs epochs.epochs in
      elim (Option-cases (get_last? s.epochs)) [
        | inl nothing ↦ absurd (rw nothing at epochs.current)
        | inr (k, last) ↦
            let keys : IsCurrent s (some k) = rw last at epochs.current in
            (k, ground (arith, found, last, later), keys.0, keys.1, keys.2)
      ]

-- ===== src/Chain/WellFormed.antt =====
-- The invariant of the verified state, through one link and through a whole chain.
use esec_vault.Base.{
  ℕ, suc, ◌+◌, ◌<◌, ◌≤◌, ◌≡◌, ◌^◌, refl, sym, Option, some, none, List, [], ◌∷◌, ◌++◌, Text, ok,
  err, >>=-eq-ok, arith, ◌==◌, Bool-cases, inl, inr, if◌then◌else◌, length, length-append,
  get_last?-append, wrapped, new, Entries, count_values,
}
use mathlib.Core.Path.{subst}
use esec_vault.Envelope.{Envelope, hash}
use esec_vault.Chain.Types.{Link, max_links, max_delegates, max_security_keys}
use esec_vault.Chain.State.{State, KeyEpoch, start}
use esec_vault.Chain.External.{External}
use esec_vault.Chain.Step.{apply_init, apply, check_link, step, steps, verify}
use esec_vault.Chain.Invariant.{
  DeviceAt, SlotAt, DelegateAt, SecurityKeyAt, HasEntries, HasEpochs, Epochs, StartsAt,
  IsWellFormed,
}
use esec_vault.Chain.Change.{Change, device_added, rotated}
use esec_vault.Chain.Change.Refines.{apply-Change}
use esec_vault.Chain.Change.Keeps.{Change-HasEntries}
use esec_vault.Chain.Frame.{SameFrame, Change-frame, apply_init-frame, step-Stepped}

pub Epochs-le :
    (v low high : ℕ) (ks : List KeyEpoch) → Epochs v low high ks → low + length ks ≤ high
Epochs-le v low high [] h = omega arith
Epochs-le v low high (k ∷ ks) h = omega (arith, Epochs-le (suc v) k.seq high ks h.2)

pub Epochs-later :
    (v low high seq : ℕ) (ks : List KeyEpoch)
    → Epochs v low high ks
    → high ≤ seq
    → Epochs v low seq ks
Epochs-later v low high seq [] h le = omega arith
Epochs-later v low high seq (k ∷ ks) h le =
    (h.0, h.1, Epochs-later (suc v) k.seq high seq ks h.2 le)

Epochs-append :
    (v low high seq : ℕ) (ks : List KeyEpoch) (k : KeyEpoch)
    → Epochs v low high ks
    → high < seq
    → k.version ≡ v + length ks
    → k.seq ≡ seq
    → Epochs v low seq (ks ++ k ∷ [])
Epochs-append v low high seq [] k h lt version at = (omega arith, omega arith, omega arith)
Epochs-append v low high seq (j ∷ ks) k h lt version at =
    (h.0, h.1, Epochs-append (suc v) j.seq high seq ks k h.2 lt (omega arith) at)

StartsAt-append :
    (n : ℕ) (ks : List KeyEpoch) (k : KeyEpoch) → StartsAt n ks → StartsAt n (ks ++ k ∷ [])
StartsAt-append n [] k h = absurd h
StartsAt-append n (j ∷ ks) k h = h

module _ (n seq : ℕ) (later : n < seq) (small : n + 1 < 2 ^ 64) where
  Change-HasEpochs : {s t : State} → Change s seq t → HasEpochs n s → HasEpochs seq t
  Change-HasEpochs {s} (rotated keep k kept some_kept new_enc new_sign version at) h = record {
    epochs =
        Epochs-append 1 0 n seq s.epochs k h.epochs later
          (omega (arith, version, h.epochs_length, Epochs-le 1 0 n s.epochs h.epochs)) at;
    epochs_length = omega (
      arith,
      version,
      h.epochs_length,
      Epochs-le 1 0 n s.epochs h.epochs,
      length-append s.epochs (k ∷ []),
    );
    first = StartsAt-append 1 s.epochs k h.first;
    current = rw (get_last?-append s.epochs k) (refl, refl, refl);
  }
  Change-HasEpochs {s} (device_added _ _ _ _ _ _) h = record {
    epochs = Epochs-later 1 0 n seq s.epochs h.epochs (omega arith);
    epochs_length = h.epochs_length;
    first = h.first;
    current = h.current;
  }
  Change-HasEpochs {s} _ h = record {
    epochs = Epochs-later 1 0 n seq s.epochs h.epochs (omega arith);
    epochs_length = h.epochs_length;
    first = h.first;
    current = h.current;
  }

empty_entries :
    (n : ℕ) (s : State)
    → s.devices ≡ []
    → s.slots ≡ []
    → s.delegates ≡ []
    → s.security_keys ≡ []
    → HasEntries n s
unfolding count_values
empty_entries n s d sl g k = record {
  devices = subst (λ m. Entries (DeviceAt n) m) (sym d) tt;
  slots = subst (λ m. Entries (SlotAt s.ukey_version) m) (sym sl) tt;
  delegates = subst (λ m. Entries (DelegateAt n) m) (sym g) tt;
  security_keys = subst (λ m. Entries (SecurityKeyAt n) m) (sym k) tt;
  few_delegates = subst (λ m. count_values (λ o. o.active) m ≤ max_delegates) (sym g) (omega arith);
  few_security_keys =
      subst (λ m. count_values (λ o. o.active) m ≤ max_security_keys) (sym k) (omega arith);
}

module _ (x : External) where
  apply_init-epochs :
      (s : State) (e : Envelope) (l : Link) (t : State)
      → apply_init x s e l ≡ ok t
      → (t.epochs
          ≡ record {
            version = 1;
            enc_pub = t.enc_pub;
            sign_pub = t.sign_pub;
            seq = l.seq;
            since = l.ctime;
          }
            ∷ [])
        × (t.ukey_version ≡ 1)
  unfolding apply_init
  apply_init-epochs s e l t h = (ground arith, ground arith)

  apply_init-HasEpochs :
      (s : State) (e : Envelope) (l : Link) (t : State)
      → apply_init x s e l ≡ ok t
      → l.seq ≡ 1
      → HasEpochs 1 t
  apply_init-HasEpochs s e l t h one =
      let (listed, version) = apply_init-epochs s e l t h in
      record {
        epochs = rw listed (refl, omega arith, omega arith);
        epochs_length = rw listed (omega arith);
        first = rw listed one;
        current = rw listed (refl, refl, sym version);
      }

  apply_init-entries :
      (s : State) (e : Envelope) (l : Link) (t : State)
      → apply_init x s e l ≡ ok t
      → s ≡ start s.user
      → HasEntries 1 t
  unfolding apply_init
  apply_init-entries s e l t h blank =
      empty_entries 1 t (ground arith) (ground arith) (ground arith) (ground arith)

  pub check_link-seq :
      (s : State) (l : Link) → check_link s l ≡ ok tt → s.seq + 1 < 2 ^ 64 → l.seq ≡ suc s.seq
  unfolding check_link
  check_link-seq s l h small = ground arith

  applied-invariants :
      (s : State) (e : Envelope) (l : Link) (t : State)
      → IsWellFormed s
      → s.seq + 1 < 2 ^ 64
      → l.seq ≡ suc s.seq
      → (if l.seq == 1 then apply_init x s e l else apply x s e l) ≡ ok t
      → SameFrame s t × HasEntries l.seq t × HasEpochs l.seq t
  applied-invariants s e l t wf small at run = elim (Bool-cases (l.seq == 1)) [
    | inl one ↦
        let made : apply_init x s e l ≡ ok t = ground arith in
        let is_one : l.seq ≡ 1 = ground arith in
        (
          apply_init-frame x s e l t made,
          rw is_one (apply_init-entries s e l t made (wf.blank (omega arith))),
          rw is_one (apply_init-HasEpochs s e l t made is_one),
        )
    | inr more ↦
        let change = apply-Change x s l t e (ground arith) in
        (
          Change-frame change,
          Change-HasEntries s.seq l.seq (omega arith) change wf.entries,
          Change-HasEpochs s.seq l.seq (omega arith) small change (wf.epochs (ground arith)),
        )
  ]

  -- A link that the verifier accepts keeps the invariant and takes the next position.
  pub step-IsWellFormed :
      (s : State) (e : Envelope) (u : State)
      → IsWellFormed s
      → s.seq + 1 < 2 ^ 64
      → step x s (some e) ≡ ok u
      → IsWellFormed u × (u.seq ≡ suc s.seq)
  step-IsWellFormed s e u wf small h =
      let st = step-Stepped x s e u h in
      let l = st.link in
      let t = st.applied in
      let at = check_link-seq s l st.checked small in
      let (frame, entries, epochs) = applied-invariants s e l t wf small at st.run in
      (
        subst IsWellFormed (sym st.result) (record {
          hashes_length =
              rw frame.hashes
                (omega (arith, length-append s.hashes (hash x.crypto e ∷ []), wf.hashes_length));
          links_length =
              rw frame.links (omega (arith, length-append s.links (l ∷ []), wf.links_length));
          entries = record {
            devices = entries.devices;
            slots = entries.slots;
            delegates = entries.delegates;
            security_keys = entries.security_keys;
            few_delegates = entries.few_delegates;
            few_security_keys = entries.few_security_keys;
          };
          epochs = λ _. record {
            epochs = epochs.epochs;
            epochs_length = epochs.epochs_length;
            first = epochs.first;
            current = epochs.current;
          };
          blank = λ zero_seq. absurd (omega arith);
        }),
        rw st.result at,
      )

  pub step_nil : (s : State) → step x s none ≡ err (new "missing envelope")
  unfolding step
  step_nil s = refl

  pub steps-IsWellFormed :
      (s : State) (es : List (Option Envelope)) (u : State)
      → IsWellFormed s
      → s.seq + length es < 2 ^ 64
      → steps x s es ≡ ok u
      → IsWellFormed u × (u.seq ≡ s.seq + length es)
  unfolding steps
  steps-IsWellFormed s [] u wf small h =
      let same : s ≡ u = cc in (subst IsWellFormed same wf, rw (← same) (omega arith))
  steps-IsWellFormed s (none ∷ es) u wf small h = absurd (ground (arith, step_nil s))
  steps-IsWellFormed s (some e ∷ es) u wf small h =
      let (t, one, rest) = >>=-eq-ok (wrapped "chain link %d: %w" (step x s (some e))) _ h in
      let (wf', at) = step-IsWellFormed s e t wf (omega arith) (ground arith) in
      let (wf'', at') = steps-IsWellFormed t es u wf' (omega arith) rest in (wf'', omega arith)

  start-IsWellFormed : (user : Text) → IsWellFormed (start user)
  start-IsWellFormed user = record {
    hashes_length = refl;
    links_length = refl;
    entries = empty_entries 0 (start user) refl refl refl refl;
    epochs = λ h. absurd (omega arith);
    blank = λ _. refl;
  }

  -- Every chain that `verify` accepts gives a well-formed state at the position of its length.
  pub verify-IsWellFormed :
      (user : Text) (es : List (Option Envelope)) (u : State)
      → verify x user es ≡ ok u
      → IsWellFormed u × (u.seq ≡ length es) × (length es ≤ max_links)
  unfolding verify
  verify-IsWellFormed user es u h =
      let bounded : length es ≤ max_links = ground arith in
      let (wf, at) =
        steps-IsWellFormed (start user) es u (start-IsWellFormed user) (omega arith)
          (ground arith) in
      (wf, omega arith, bounded)

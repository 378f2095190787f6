-- ===== src/Chain/Pin.antt =====
-- Pins: a chain that passes `CheckPin` extends the chain that was pinned.
use esec_vault.Base.{
  ℕ, suc, zero, ◌<◌, ◌≤◌, ◌≡◌, ◌⊎◌, sym, ap, ◌∙◌, Bool-cases, inl, inr, Option, some, none, List,
  [], ◌∷◌, Text, ok, arith, >>=-eq-ok, ◌==◌, text_eq_iff, true, length, get_elem?, wrapped,
}
use mathlib.Core.Path.{subst}
use esec_vault.Envelope.{Envelope, hash}
use esec_vault.Envelope.Digest.{Collision, hash-message}
use esec_vault.Chain.Types.{Link}
use esec_vault.Chain.State.{State, start, head, check_pin, or_empty, same_hash}
use esec_vault.Chain.External.{External}
use esec_vault.Chain.Step.{step, steps, verify}
use esec_vault.Chain.WellFormed.{verify-IsWellFormed}
use esec_vault.Chain.Same.{SameMessage, read_link-same, step-same}
use esec_vault.Chain.History.{before, IsHashed, before-head, verify-steps, verify-IsHashed}

record SameAt (es fs : List (Option Envelope)) (i : ℕ) : Type 0 where
  left : Envelope
  right : Envelope
  in_left : get_elem? es i ≡ some (some left)
  in_right : get_elem? fs i ≡ some (some right)
  same : SameMessage left right

unwrap :
    (o p : Option Text) (a b : Text) → o ≡ some a → p ≡ some b → or_empty o ≡ or_empty p → o ≡ p
unwrap o p a b h k e = ground arith

module _ (x : External) (es fs : List (Option Envelope)) (s t : State) (hs : IsHashed x es s)
    (ht : IsHashed x fs t) where
  same_at :
      (n : ℕ)
      → n < length es
      → n < length fs
      → get_elem? s.hashes n ≡ get_elem? t.hashes n
      → Collision x.crypto ⊎ (SameAt es fs n × (before s.hashes n ≡ before t.hashes n))
  same_at n lt_s lt_t same =
      let at_s = hs.2 n lt_s in
      let at_t = ht.2 n lt_t in
      let one_hash : hash x.crypto at_s.envelope ≡ hash x.crypto at_t.envelope =
        cc (at_s.in_hashes, at_t.in_hashes, same) in
      elim (hash-message x.crypto at_s.envelope at_t.envelope one_hash) [
        | inl collision ↦ inl collision
        | inr messages ↦
            let links =
              read_link-same x at_s.envelope at_t.envelope at_s.link at_t.link messages at_s.read
                at_t.read in
            inr (
              record {
                left = at_s.envelope;
                right = at_t.envelope;
                in_left = at_s.in_envelopes;
                in_right = at_t.in_envelopes;
                same = messages;
              },
              sym at_s.prev ∙ ap (λ (l : Link). l.prev) links ∙ at_t.prev,
            )
      ]

  -- One hash at one position of two chains means one history up to there, or a collision.
  same_history :
      (n : ℕ)
      → n < length es
      → n < length fs
      → get_elem? s.hashes n ≡ get_elem? t.hashes n
      → Collision x.crypto ⊎ ((i : ℕ) → i ≤ n → SameAt es fs i)
  same_history zero lt_s lt_t same = elim (same_at zero lt_s lt_t same) [
    | inl collision ↦ inl collision
    | inr (here, _) ↦
        inr (λ i le. let at : i ≡ zero = omega arith in subst (SameAt es fs) (sym at) here)
  ]
  same_history (suc n) lt_s lt_t same = elim (same_at (suc n) lt_s lt_t same) [
    | inl collision ↦ inl collision
    | inr (here, prevs) ↦
        let at_s = hs.2 n (omega arith) in
        let at_t = ht.2 n (omega arith) in
        elim (same_history n (omega arith) (omega arith) (
          unwrap (get_elem? s.hashes n) (get_elem? t.hashes n) _ _ at_s.in_hashes at_t.in_hashes
            prevs)) [
              | inl collision ↦ inl collision
              | inr earlier ↦ inr (λ i le. elim (Bool-cases (i == suc n)) [
                | inl last ↦ let at : i ≡ suc n = ground arith in subst (SameAt es fs) (sym at) here
                | inr other ↦ earlier i (ground arith)
              ])
            ]
  ]

-- Messages that agree, envelope for envelope, as far as the first list goes.
abbrev Agree : List (Option Envelope) → List (Option Envelope) → Type 0
Agree [] fs = Unit {0}
Agree (e ∷ es) [] = ⊥
Agree (none ∷ es) (f ∷ fs) = ⊥
Agree (some e ∷ es) (none ∷ fs) = ⊥
Agree (some e ∷ es) (some f ∷ fs) = SameMessage e f × Agree es fs

Agree-of_SameAt :
    (es fs : List (Option Envelope)) → ((i : ℕ) → i < length es → SameAt es fs i) → Agree es fs
Agree-of_SameAt [] fs h = tt
Agree-of_SameAt (e ∷ es) [] h = absurd (let at = h 0 (omega arith) in cc (at.in_right))
Agree-of_SameAt (none ∷ es) (f ∷ fs) h = absurd (let at = h 0 (omega arith) in cc (at.in_left))
Agree-of_SameAt (some e ∷ es) (none ∷ fs) h =
    absurd (let at = h 0 (omega arith) in cc (at.in_right))
Agree-of_SameAt (some e ∷ es) (some f ∷ fs) h =
    let at = h 0 (omega arith) in
    let left : e ≡ at.left = cc (at.in_left) in
    let right : f ≡ at.right = cc (at.in_right) in
    (
      rw (left, right) at.same,
      Agree-of_SameAt es fs (λ i lt.
          let later = h (suc i) (omega arith) in
          record {
            left = later.left;
            right = later.right;
            in_left = later.in_left;
            in_right = later.in_right;
            same = later.same;
          }),
    )

-- A chain whose messages begin with those of another goes through that one's state.
steps-Agree :
    (x : External) (a : State) (es fs : List (Option Envelope)) (s t : State)
    → steps x a es ≡ ok s
    → steps x a fs ≡ ok t
    → Agree es fs
    → (gs : List (Option Envelope)) × (steps x s gs ≡ ok t)
unfolding steps
steps-Agree x a [] fs s t h k agree =
    let same : a ≡ s = cc in (fs, subst (λ b. steps x b fs ≡ ok t) same k)
steps-Agree x a (none ∷ es) [] s t h k agree = absurd agree
steps-Agree x a (some e ∷ es) [] s t h k agree = absurd agree
steps-Agree x a (none ∷ es) (f ∷ fs) s t h k agree = absurd agree
steps-Agree x a (some e ∷ es) (none ∷ fs) s t h k agree = absurd agree
steps-Agree x a (some e ∷ es) (some f ∷ fs) s t h k (same, agree) =
    let (b, one, rest) = >>=-eq-ok (wrapped "chain link %d: %w" (step x a (some e))) _ h in
    let (c, other, rest') = >>=-eq-ok (wrapped "chain link %d: %w" (step x a (some f))) _ k in
    let equal : c ≡ b = sym (step-same x a e f b c same (ground arith) (ground arith)) in
    steps-Agree x b es fs s t rest (subst (λ d. steps x d fs ≡ ok t) equal rest') agree

same_hash-some : (o : Option Text) (h : Text) → same_hash o h ≡ true → o ≡ some h
same_hash-some none h e = absurd (cc)
same_hash-some (some g) h e = ap some ((text_eq_iff g h).0 e)

pinned :
    (t : State) (n : ℕ) (h : Text)
    → check_pin t (suc n) h ≡ ok tt
    → (suc n ≤ t.seq) × (get_elem? t.hashes n ≡ some h)
unfolding check_pin
pinned t n h passed = (ground arith, same_hash-some (get_elem? t.hashes n) h (ground arith))

head-last :
    (s : State) (n : ℕ) (h : Text)
    → length s.hashes ≡ suc n
    → get_elem? s.hashes n ≡ some h
    → head s ≡ h
unfolding head
head-last s n h size at = sym (before-head s.hashes) ∙ rw size (rw at)

module _ (x : External) (user : Text) (e : Option Envelope) (es fs : List (Option Envelope))
    (s t : State) (hs : verify x user (e ∷ es) ≡ ok s) (ht : verify x user fs ≡ ok t)
    (pin : check_pin t s.seq (head s) ≡ ok tt) where
  same_head :
      (length es < length fs) × (get_elem? s.hashes (length es) ≡ get_elem? t.hashes (length es))
  same_head =
      let n : ℕ = length es in
      let ps = verify-IsHashed x user (e ∷ es) s hs in
      let at = ps.2 n (omega arith) in
      let size = (verify-IsWellFormed x user (e ∷ es) s hs).1 in
      let size' = (verify-IsWellFormed x user fs t ht).1 in
      let (le, found) =
        pinned t n (head s) (subst (λ q. check_pin t q (head s) ≡ ok tt) size pin) in
      (
        omega arith,
        at.in_hashes
            ∙ ap some (sym (head-last s n (hash x.crypto at.envelope) ps.0 at.in_hashes))
            ∙ sym found,
      )

-- A client that verified a chain and pinned its head, and later verifies another chain of the same
-- user that passes `check_pin`, has a chain that goes on from the state that it knew: the new state
-- is reached from the old one by further links. Otherwise a collision of SHA-256 is at hand.
pub check_pin-extends :
    (x : External) (user : Text) (es fs : List (Option Envelope)) (s t : State)
    → verify x user es ≡ ok s
    → verify x user fs ≡ ok t
    → check_pin t s.seq (head s) ≡ ok tt
    → Collision x.crypto ⊎ ((gs : List (Option Envelope)) × (steps x s gs ≡ ok t))
check_pin-extends x user [] fs s t hs ht pin = inr (
    steps-Agree x (start user) [] fs s t (verify-steps x user [] s hs) (verify-steps x user fs t ht)
      tt)
check_pin-extends x user (e ∷ es) fs s t hs ht pin =
    let (lt, same) = same_head x user e es fs s t hs ht pin in
    elim (same_history x (e ∷ es) fs s t (verify-IsHashed x user (e ∷ es) s hs)
      (verify-IsHashed x user fs t ht) (length es) (omega arith) lt same) [
        | inl collision ↦ inl collision
        | inr history ↦ inr (
            steps-Agree x (start user) (e ∷ es) fs s t (verify-steps x user (e ∷ es) s hs)
              (verify-steps x user fs t ht)
              (Agree-of_SameAt (e ∷ es) fs (λ i lt'. history i (omega arith))))
      ]

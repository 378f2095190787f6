-- ===== src/Chain/History.antt =====
-- What ties the envelopes of a verified chain to the hashes and the links of its state.
use esec_vault.Base.{
  ℕ, suc, zero, ◌<◌, ◌≤◌, ◌≡◌, refl, sym, ap, ◌∙◌, Bool-cases, inl, inr, Option, some, none, List,
  [], ◌∷◌, ◌++◌, Text, ok, arith, >>=-eq-ok, ◌==◌, text_eq_iff, length, length-append, get_elem?,
  get_elem?-append_left, get_elem?-append_length, get_last?, wrapped, ltb,
}
use mathlib.Core.Path.{subst}
use mathlib.Core.List.{append-nil, append_assoc}
use esec_vault.Envelope.{Envelope, hash}
use esec_vault.Chain.Types.{Link}
use esec_vault.Chain.State.{State, start, head, or_empty}
use esec_vault.Chain.External.{External}
use esec_vault.Chain.Step.{read_link, check_link, step, steps, verify}
use esec_vault.Chain.Change.Refines.{apply-Change}
use esec_vault.Chain.Frame.{SameFrame, Change-frame, apply_init-frame, step-Stepped}
use esec_vault.Chain.WellFormed.{step_nil}

-- the hash that the link at an index must name
abbrev pub before : List Text → ℕ → Text
before hashes zero = []
before hashes (suc i) = or_empty (get_elem? hashes i)

-- the envelope and the link at an index of a chain, and what ties them together
pub record LinkAt (x : External) (es : List (Option Envelope)) (hashes : List Text)
    (links : List Link) (i : ℕ) : Type 0 where
  pub envelope : Envelope
  pub link : Link
  pub in_envelopes : get_elem? es i ≡ some (some envelope)
  pub in_hashes : get_elem? hashes i ≡ some (hash x.crypto envelope)
  pub in_links : get_elem? links i ≡ some link
  pub read : read_link x envelope ≡ ok link
  pub prev : link.prev ≡ before hashes i

abbrev pub IsHashed : External → List (Option Envelope) → State → Type 0
IsHashed x es s =
    (length s.hashes ≡ length es)
    × (length s.links ≡ length es)
    × ((i : ℕ) → i < length es → LinkAt x es s.hashes s.links i)

pub before-head : (hs : List Text) → before hs (length hs) ≡ or_empty (get_last? hs)
before-head [] = refl
before-head (h ∷ []) = refl
before-head (h ∷ (g ∷ hs)) = before-head (g ∷ hs)

before-append :
    (hs : List Text) (h : Text) (i : ℕ) → i ≤ length hs → before (hs ++ h ∷ []) i ≡ before hs i
before-append hs h zero le = refl
before-append hs h (suc i) le = ap or_empty (get_elem?-append_left hs (h ∷ []) i (omega arith))

module _ (x : External) (es : List (Option Envelope)) (hs : List Text) (ls : List Link)
    (e : Envelope) (l : Link) (nh : length hs ≡ length es) (nl : length ls ≡ length es) where
  LinkAt-old :
      (i : ℕ)
      → i < length es
      → LinkAt x es hs ls i
      → LinkAt x (es ++ some e ∷ []) (hs ++ hash x.crypto e ∷ []) (ls ++ l ∷ []) i
  LinkAt-old i lt at = record {
    envelope = at.envelope;
    link = at.link;
    in_envelopes = get_elem?-append_left es (some e ∷ []) i lt ∙ at.in_envelopes;
    in_hashes = get_elem?-append_left hs (hash x.crypto e ∷ []) i (omega arith) ∙ at.in_hashes;
    in_links = get_elem?-append_left ls (l ∷ []) i (omega arith) ∙ at.in_links;
    read = at.read;
    prev = at.prev ∙ sym (before-append hs (hash x.crypto e) i (omega arith));
  }

  LinkAt-new :
      (i : ℕ)
      → i ≡ length es
      → read_link x e ≡ ok l
      → l.prev ≡ or_empty (get_last? hs)
      → LinkAt x (es ++ some e ∷ []) (hs ++ hash x.crypto e ∷ []) (ls ++ l ∷ []) i
  LinkAt-new i at read prev = record {
    envelope = e;
    link = l;
    in_envelopes = rw at (get_elem?-append_length es (some e));
    in_hashes = rw (at, ← nh) (get_elem?-append_length hs (hash x.crypto e));
    in_links = rw (at, ← nl) (get_elem?-append_length ls l);
    read = read;
    prev =
        prev
        ∙ sym (before-head hs)
        ∙ rw (nh, ← at) (sym (before-append hs (hash x.crypto e) i (omega arith)));
  }

module _ (x : External) (s : State) (e : Envelope) (u : State)
    (stepped : step x s (some e) ≡ ok u) where
  step-records :
      (l : Link) × (read_link x e ≡ ok l)
      × (l.prev ≡ head s)
      × (u.hashes ≡ s.hashes ++ hash x.crypto e ∷ [])
      × (u.links ≡ s.links ++ l ∷ [])
  unfolding check_link
  step-records =
      let st = step-Stepped x s e u stepped in
      let l = st.link in
      let frame : SameFrame s st.applied = elim (Bool-cases (l.seq == 1)) [
        | inl one ↦ apply_init-frame x s e l st.applied (ground (arith, st.run))
        | inr more ↦ Change-frame (apply-Change x s l st.applied e (ground (arith, st.run)))
      ] in
      (
        l,
        st.read,
        ground (arith, st.checked, text_eq_iff l.user s.user, text_eq_iff l.prev (head s)),
        ap (λ (t : State). t.hashes) st.result
            ∙ ap (λ (hs : List Text). hs ++ hash x.crypto e ∷ []) frame.hashes,
        ap (λ (t : State). t.links) st.result ∙ ap (λ (ls : List Link). ls ++ l ∷ []) frame.links,
      )

  step-IsHashed : (es : List (Option Envelope)) → IsHashed x es s → IsHashed x (es ++ some e ∷ []) u
  unfolding head
  step-IsHashed es (nh, nl, at) =
      let (l, read, prev, hashes, links) = step-records in
      (
        rw hashes (
            omega (
              arith,
              nh,
              length-append s.hashes (hash x.crypto e ∷ []),
              length-append es (some e ∷ []),
            )),
        rw links
            (omega (arith, nl, length-append s.links (l ∷ []), length-append es (some e ∷ []))),
        λ i lt.
            rw (hashes, links)
              (elim (Bool-cases (ltb i (length es))) [
                | inl old ↦
                    let lt' : i < length es = ground arith in
                    LinkAt-old x es s.hashes s.links e l nh nl i lt' (at i lt')
                | inr new ↦
                    LinkAt-new x es s.hashes s.links e l nh nl i
                      (ground (arith, length-append es (some e ∷ []))) read prev
              ]),
      )

module _ (x : External) where
  steps-IsHashed :
      (s : State) (before_s es : List (Option Envelope)) (u : State)
      → IsHashed x before_s s
      → steps x s es ≡ ok u
      → IsHashed x (before_s ++ es) u
  unfolding steps
  steps-IsHashed s done [] u h run =
      let same : s ≡ u = cc in rw append-nil (subst (λ t. IsHashed x done t) same h)
  steps-IsHashed s done (none ∷ es) u h run = absurd (ground (arith, step_nil x s))
  steps-IsHashed s done (some e ∷ es) u h run =
      let (t, one, rest) = >>=-eq-ok (wrapped "chain link %d: %w" (step x s (some e))) _ run in
      let made : step x s (some e) ≡ ok t = ground arith in
      rw append_assoc at
        (steps-IsHashed t (done ++ some e ∷ []) es u (step-IsHashed x s e t made done h) rest)

  pub verify-steps :
      (user : Text) (es : List (Option Envelope)) (u : State)
      → verify x user es ≡ ok u
      → steps x (start user) es ≡ ok u
  unfolding verify
  verify-steps user es u h = ground arith

  pub verify-IsHashed :
      (user : Text) (es : List (Option Envelope)) (u : State)
      → verify x user es ≡ ok u
      → IsHashed x es u
  verify-IsHashed user es u h =
      steps-IsHashed (start user) [] es u (refl, refl, λ i lt. absurd (omega arith))
        (verify-steps user es u h)

-- the envelopes at an index of two chains have one message

-- ===== src/Chain/DelegateHistory.antt =====
-- `DelegateAt`: the delegates that a person had at a position, as other parties ask for them later.
use esec_vault.Base.{
  ℕ, suc, ◌+◌, ◌<◌, ◌≤◌, ◌≡◌, ◌^◌, ◌∙◌, refl, Option, some, none, List, Text, text_eq, text_eq_iff,
  ok, arith, ◌==◌, ◌&&◌, ◌||◌, Bool-cases, Option-cases, inl, inr, if◌then◌else◌, length, ltb, leb,
  true, false, lookup, lookup-insert, lookup-update_all, Entries-lookup, map_some,
}
use esec_vault.Envelope.{Envelope}
use esec_vault.Chain.Types.{Delegate}
use esec_vault.Chain.State.{State, DelegateState, delegate_at}
use esec_vault.Chain.External.{External}
use esec_vault.Chain.Step.{steps, drop_delegate}
use esec_vault.Chain.Invariant.{IsWellFormed, DelegateAt, HasEntries}
use esec_vault.Chain.Change.{Change, device_added, delegate_added, delegate_removed, rotated}
use esec_vault.Chain.WellFormed.{steps-IsWellFormed}
use esec_vault.Chain.Runs.{steps-keeps}

-- the delegate that an entry shows at a position
abbrev visible : ℕ → Option DelegateState → Option Delegate
visible q none = none
visible q (some d) =
    if leb d.added_seq q && (d.removed_seq == 0 || ltb q d.removed_seq)
    then some d.delegate
    else none

abbrev pub the_delegate : Option DelegateState → Option Delegate
the_delegate none = none
the_delegate (some d) = some d.delegate

-- the delegate of an entry that is active
abbrev pub the_active : Option DelegateState → Option Delegate
the_active none = none
the_active (some d) = if d.active then some d.delegate else none

module _ (q n : ℕ) (id : Text) where
  visible-drop :
      (o : Option DelegateState)
      → q < n
      → ((d : DelegateState) → o ≡ some d → (d.active ≡ true → d.removed_seq ≡ 0))
      → visible q (map_some (drop_delegate n id) o) ≡ visible q o
  visible-drop none lt h = refl
  visible-drop (some d) lt h = ground (arith, h d refl)

  Change-visible :
      {t v : State}
      → Change t n v
      → HasEntries t.seq t
      → q ≤ t.seq
      → n ≡ suc t.seq
      → visible q (lookup id v.delegates) ≡ visible q (lookup id t.delegates)
  Change-visible {t} (delegate_added d fresh _ on added removed) h le at =
      rw (lookup-insert d.delegate.id id d t.delegates)
        (elim (Bool-cases (text_eq d.delegate.id id)) [
          | inl same ↦
              let same_id = (text_eq_iff d.delegate.id id).0 same in
              rw same (rw (← same_id) (rw fresh (ground arith)))
          | inr other ↦ rw other
        ])
  Change-visible {t} (delegate_removed j d found on) h le at =
      let old = Entries-lookup (DelegateAt t.seq) t.delegates j d h.delegates found in
      rw (lookup-insert j id (record d { active = false; removed_seq = n }) t.delegates)
        (elim (Bool-cases (text_eq j id)) [
          | inl same ↦
              let same_id = (text_eq_iff j id).0 same in
              rw same (rw (← same_id) (rw found (ground (arith, old))))
          | inr other ↦ rw other
        ])
  Change-visible {t} (rotated keep k _ _ _ _ _ _) h le at =
      rw (lookup-update_all (drop_delegate n) id t.delegates) (
        visible-drop (lookup id t.delegates) (omega arith) λ d found.
          let old = Entries-lookup (DelegateAt t.seq) t.delegates id d h.delegates found in
          λ on. ground (arith, old))
  Change-visible (device_added _ _ _ _ _ _) h le at = refl
  Change-visible _ h le at = refl

module _ (s : State) (id : Text) (wf : IsWellFormed s) where
  visible-head : visible s.seq (lookup id s.delegates) ≡ the_active (lookup id s.delegates)
  visible-head = elim (Option-cases (lookup id s.delegates)) [
    | inl nothing ↦ rw nothing
    | inr (d, found) ↦
        let at = Entries-lookup (DelegateAt s.seq) s.delegates id d wf.entries.delegates found in
        rw found (ground (arith, at))
  ]

delegate_at-visible :
    (s : State) (id : Text) (q : ℕ)
    → 0 < q
    → q ≤ s.seq
    → the_delegate (delegate_at s id q) ≡ visible q (lookup id s.delegates)
unfolding delegate_at
delegate_at-visible s id q pos le = ground arith

-- Once a chain had the links that give `s`, whatever follows, `delegate_at` finds for that position
-- exactly the delegates that were active then, with the keys and scopes that they had.
pub delegate_at-steps :
    (x : External) (s : State) (es : List (Option Envelope)) (u : State) (id : Text)
    → IsWellFormed s
    → 0 < s.seq
    → s.seq + length es < 2 ^ 64
    → steps x s es ≡ ok u
    → the_delegate (delegate_at u id s.seq) ≡ the_active (lookup id s.delegates)
delegate_at-steps x s es u id wf pos small run =
    delegate_at-visible u id s.seq pos (omega (arith, (steps-IsWellFormed x s es u wf small run).1))
    ∙ steps-keeps x
        (λ t. visible s.seq (lookup id t.delegates) ≡ visible s.seq (lookup id s.delegates)) s.seq
        (λ t v n good low at c p. Change-visible s.seq n id c good.entries low at ∙ p)
        (λ v h l p. p) s es u wf pos (omega arith) small run refl
    ∙ visible-head s id wf

-- ===== src/Group/Frame.antt =====
-- The parts of an accepted step of a group chain, and induction over a chain.
use esec_vault.Base.{
  lookup, Dict, ◌≡◌, refl, true, false, ◌&&◌, not, some, none, Option, List, [], ◌∷◌, ◌++◌, Text,
  ok, err, >>=-eq-ok, arith, ltb, ◌==◌, length, fail_if, new, wrapped,
}
use mathlib.Core.Path.{subst}
use esec_vault.Envelope.{Envelope, hash}
use esec_vault.Team.Types as TeamTypes
use esec_vault.Team.Valid.{valid_group}
use esec_vault.Team.External.{Chains}
use esec_vault.Group.Types.{Link, link_type}
use esec_vault.Group.State.{State, CredState, PersonState, cred, active_in, start}
use esec_vault.Group.External.{External}
use esec_vault.Group.Step.{
  is_init, check_link, check_size, check_signer, peek_link, apply, step_link, step, steps, verify,
  note_seq,
}
use esec_vault.Group.Change.{Change}
use esec_vault.Group.Change.Refines.{apply_type-Change}

abbrev pub recorded : State → Text → Link → State
recorded t h l = record t {
  signer_seqs = note_seq l t.signer_seqs;
  seq = l.seq;
  hashes = t.hashes ++ h ∷ [];
  last_time = l.ctime;
  links = t.links ++ l ∷ [];
}

-- An accepted step: the link, the checks that it passed, and what it made of the state.
pub record Stepped (x : External) (chains : Chains) (s : State) (e : Envelope) (u : State)
    : Type 0 where
  pub link : Link
  pub read : peek_link x e ≡ ok link
  pub checked : check_link s link ≡ ok tt
  pub signed : check_signer x s e link chains ≡ ok tt
  pub first_is_init : ((link.seq == 1) && not (is_init (link_type link.typ))) ≡ false
  pub applied : State
  pub change : Change x s link (link_type link.typ) applied
  pub sized : check_size applied ≡ ok tt
  pub result : u ≡ recorded applied (hash x.team.keys.crypto e) link

pub step-Stepped :
    (x : External) (chains : Chains) (s : State) (e : Envelope) (u : State)
    → step x chains s (some e) ≡ ok u
    → Stepped x chains s e u
unfolding step step_link apply
step-Stepped x chains s e u h =
    let (l, read, h₁) = >>=-eq-ok (peek_link x e) _ h in
    let (_, checked, h₂) = >>=-eq-ok (check_link s l) _ h₁ in
    let (_, signed, h₃) = >>=-eq-ok (check_signer x s e l chains) _ h₂ in
    let (t, applied, h₄) = >>=-eq-ok (apply x s l) _ h₃ in
    let (_, first, run) =
      >>=-eq-ok
        (fail_if ((l.seq == 1) && not (is_init (link_type l.typ)))
          (new "a group chain must start with an init link"))
        _ applied in
    let (_, sized, made) = >>=-eq-ok (check_size t) _ h₄ in
    record {
      link = l;
      read = read;
      checked = checked;
      signed = signed;
      first_is_init = ground arith;
      applied = t;
      change = apply_type-Change x s l t (link_type l.typ) run;
      sized = sized;
      result = ground arith;
    }

-- A link that is missing is refused.
pub step_nil :
    (x : External) (chains : Chains) (s : State)
    → step x chains s none ≡ err (new "missing envelope")
unfolding step
step_nil x chains s = refl

-- What is found is there, and active.
pub cred-found :
    (s : State) (id : Text) (c : CredState)
    → cred s id ≡ some c
    → (lookup id s.creds ≡ some c) × (c.active ≡ true)
unfolding cred
cred-found s id c h = (ground arith, ground arith)

pub active_in-found :
    (user : Text) (m : Dict PersonState) (p : PersonState)
    → active_in user m ≡ some p
    → (lookup user m ≡ some p) × (p.active ≡ true)
active_in-found user m p h = (ground arith, ground arith)

-- What every accepted step keeps, every accepted chain of steps keeps.
module _ (x : External) (chains : Chains) (P : State → Type 0) where
  pub steps-keep :
      ((s : State) (e : Envelope) (u : State) → step x chains s (some e) ≡ ok u → P s → P u)
      → (s : State) (es : List (Option Envelope)) (u : State) → steps x chains s es ≡ ok u
      → P s
      → P u
  unfolding steps
  steps-keep keep s [] u h p = subst P (ground arith) p
  steps-keep keep s (none ∷ es) u h p = absurd (ground (arith, step_nil x chains s))
  steps-keep keep s (some e ∷ es) u h p =
      let (t, one, rest) =
        >>=-eq-ok (wrapped "group chain link %d: %w" (step x chains s (some e))) _ h in
      let made : step x chains s (some e) ≡ ok t = ground arith in
      steps-keep keep t es u rest (keep s e t made p)

  pub verify-keep :
      ((s : State) (e : Envelope) (u : State) → step x chains s (some e) ≡ ok u → P s → P u)
      → (group : Text) (es : List (Option Envelope)) (u : State) → verify x chains group es ≡ ok u
      → P (start group)
      → P u
  unfolding verify
  verify-keep keep group es u h p =
      let (_, _, h₁) = >>=-eq-ok (valid_group x.team group) _ h in
      let (_, _, h₂) = >>=-eq-ok (fail_if (ltb TeamTypes.max_links (length es)) _) _ h₁ in
      steps-keep keep (start group) es u h₂ p

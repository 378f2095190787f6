-- ===== src/Team/Frame.antt =====
-- The parts of an accepted step, and what no link of a project chain touches.
use esec_vault.Base.{
  false, ◌≡◌, refl, some, none, [], ◌∷◌, ◌++◌, Text, ok, err, >>=-eq-ok, arith, insert, ltb,
  fail_if, new,
}
use esec_vault.Envelope.{Envelope, hash}
use esec_vault.Team.Types.{Link, link_type}
use esec_vault.Team.State.{State}
use esec_vault.Team.External.{External, Chains}
use esec_vault.Team.Signer.{signer_root, check_signer}
use esec_vault.Team.Step.{
  signer_seq, check_link, check_size, may_apply, peek_link, apply_type, apply, step_link, step,
}

abbrev pub recorded : State → Text → Link → State
recorded t h l = record t {
  signer_seqs = insert l.signer l.signer_seq t.signer_seqs;
  seq = l.seq;
  hashes = t.hashes ++ h ∷ [];
  last_time = l.ctime;
  links = t.links ++ l ∷ [];
}

-- An accepted step: the link, the checks that it passed, and what it made of the state.
pub record Stepped (x : External) (chains : Chains) (s : State) (e : Envelope) (u : State)
    : Type 0 where
  pub link : Link
  pub read : peek_link x e ≡ ok link
  pub checked : check_link s link ≡ ok tt
  pub root : Text
  pub rooted : signer_root x s link ≡ ok root
  pub signed : check_signer x s e link root chains ≡ ok tt
  pub later : ltb link.signer_seq (signer_seq s link.signer) ≡ false
  pub allowed : may_apply (link_type link.typ) s link ≡ ok tt
  pub applied : State
  pub run : apply_type x (link_type link.typ) s link ≡ ok applied
  pub sized : check_size applied ≡ ok tt
  pub result : u ≡ recorded applied (hash x.keys.crypto e) link

pub step-Stepped :
    (x : External) (chains : Chains) (s : State) (e : Envelope) (u : State)
    → step x chains s (some e) ≡ ok u
    → Stepped x chains s e u
unfolding step step_link apply
step-Stepped x chains s e u h =
    let (l, read, h₁) = >>=-eq-ok (peek_link x e) _ h in
    let (_, checked, h₂) = >>=-eq-ok (check_link s l) _ h₁ in
    let (root, rooted, h₃) = >>=-eq-ok (signer_root x s l) _ h₂ in
    let (_, signed, h₄) = >>=-eq-ok (check_signer x s e l root chains) _ h₃ in
    let (_, later, h₅) =
      >>=-eq-ok
        (fail_if (ltb l.signer_seq (signer_seq s l.signer))
          (new "%s signed as of an earlier position of their user chain than before"))
        _ h₄ in
    let (t, applied, h₆) = >>=-eq-ok (apply x s l) _ h₅ in
    let (_, allowed, run) = >>=-eq-ok (may_apply (link_type l.typ) s l) _ applied in
    let (_, sized, made) = >>=-eq-ok (check_size t) _ h₆ in
    record {
      link = l;
      read = read;
      checked = checked;
      root = root;
      rooted = rooted;
      signed = signed;
      later = ground arith;
      allowed = allowed;
      applied = t;
      run = run;
      sized = sized;
      result = ground arith;
    }

-- A link that is missing is refused.
pub step_nil :
    (x : External) (chains : Chains) (s : State)
    → step x chains s none ≡ err (new "missing envelope")
unfolding step
step_nil x chains s = refl

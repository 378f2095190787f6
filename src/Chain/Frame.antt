-- ===== src/Chain/Frame.antt =====
-- What no accepted link touches: the user, the position, the hashes, the links and the last time.
use esec_vault.Base.{
  ℕ, ◌≡◌, refl, some, [], ◌∷◌, ◌++◌, Text, ok, >>=-eq-ok, arith, ◌==◌, if◌then◌else◌,
}
use esec_vault.Envelope.{Envelope, hash}
use esec_vault.Chain.Types.{Link}
use esec_vault.Chain.State.{State}
use esec_vault.Chain.External.{External}
use esec_vault.Chain.Step.{apply_init, apply, read_link, check_link, step_link, step}
use esec_vault.Chain.Change.{Change, device_added, device_revoked}

pub record SameFrame (s t : State) : Type 0 where
  pub user : t.user ≡ s.user
  pub seq : t.seq ≡ s.seq
  pub hashes : t.hashes ≡ s.hashes
  pub last_time : t.last_time ≡ s.last_time
  pub links : t.links ≡ s.links

pub Change-frame : {n : ℕ} {s t : State} → Change s n t → SameFrame s t
Change-frame (device_added _ _ _ _ _ _) = record {
  user = refl;
  seq = refl;
  hashes = refl;
  last_time = refl;
  links = refl;
}
Change-frame (device_revoked _ _ _ _) = record {
  user = refl;
  seq = refl;
  hashes = refl;
  last_time = refl;
  links = refl;
}
Change-frame _ = record { user = refl; seq = refl; hashes = refl; last_time = refl; links = refl }

-- the state with a link recorded
abbrev pub recorded : State → Text → Link → State
recorded t h l = record t {
  seq = l.seq;
  hashes = t.hashes ++ h ∷ [];
  last_time = l.ctime;
  links = t.links ++ l ∷ [];
}

module _ (x : External) where
  pub apply_init-frame :
      (s : State) (e : Envelope) (l : Link) (t : State) → apply_init x s e l ≡ ok t → SameFrame s t
  unfolding apply_init
  apply_init-frame s e l t h = ground arith

  -- What an accepted step went through.
  pub record Stepped (s : State) (e : Envelope) (u : State) : Type 0 where
    pub link : Link
    pub applied : State
    pub read : read_link x e ≡ ok link
    pub checked : check_link s link ≡ ok tt
    pub run : (if link.seq == 1 then apply_init x s e link else apply x s e link) ≡ ok applied
    pub result : u ≡ recorded applied (hash x.crypto e) link

  pub step-Stepped :
      (s : State) (e : Envelope) (u : State) → step x s (some e) ≡ ok u → Stepped s e u
  unfolding step step_link
  step-Stepped s e u h =
      let (l, read, h₁) = >>=-eq-ok (read_link x e) _ h in
      let (_, checked, h₂) = >>=-eq-ok (check_link s l) _ h₁ in
      let (t, run, h₃) =
        >>=-eq-ok (if l.seq == 1 then apply_init x s e l else apply x s e l) _ h₂ in
      record { link = l; applied = t; read = read; checked = checked; run = run; result = cc }

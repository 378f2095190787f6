-- ===== src/Group/Counted.antt =====
-- What group.go counts: the active credentials in State.credCount, the limits, and the chain's
-- length.
use esec_vault.Base.{
  ◌^◌, sort, ℕ, ◌+◌, ◌≤◌, ◌<◌, ◌≡◌, refl, sym, ◌∙◌, ap, Bool, false, ◌&&◌, some, none, Option, List,
  [], ◌∷◌, Text, ok, >>=-eq-ok, arith, Dict, count_values, count_values-insert_trade, values_where,
  passes-le-count_values, wrapped, fail_if, ltb, length, length-append,
}
use mathlib.Core.Path.{subst}
use esec_vault.Envelope.{Envelope, hash}
use esec_vault.Team.Types as TeamTypes
use esec_vault.Team.Valid.{valid_group}
use esec_vault.Team.External.{Chains}
use esec_vault.Group.Types.{
  Link, LinkType, GroupKey, max_admins, max_members, max_creds, max_projects,
}
use esec_vault.Group.State.{State, CredState, active_creds, wanted, by_name, start}
use esec_vault.Group.External.{External}
use esec_vault.Group.Creds.{new_cred, set_key}
use esec_vault.Group.Valid.{kms_name}
use esec_vault.Group.Step.{check_link, check_size, step, steps, verify}
use esec_vault.Group.Frame.{cred-found, step-Stepped, step_nil}
use esec_vault.Group.Admins.{set_key-result, length-sort, length-values_where}
use esec_vault.Group.Change.{
  Change, created, admin_added, admin_removed, member_added, member_removed, cred_added,
  workload_rekeyed, cred_removed, key_rotated, access_added, access_removed,
}

abbrev is_live : CredState → Bool
is_live c = c.active

abbrev live : State → ℕ
live s = count_values is_live s.creds

module _ (x : External) (s : State) (l : Link) where
  Change-counted :
      (k : LinkType) (t : State) → Change x s l k t → s.active ≡ live s → t.active ≡ live t
  Change-counted k _ (created b t at first made) h =
      let r = set_key-result s b.key l t made in subst (λ (v : State). v.active ≡ live v) (sym r) h
  Change-counted k t (admin_added b members other done) h = h
  Change-counted k t (admin_removed b a present kept) h = h
  Change-counted k t (member_added b decoded other) h = h
  Change-counted k t (member_removed b m why present may) h = h
  Change-counted _ t (cred_added k c kind join adds may fresh keys group) h =
      ground
        (arith, fresh, h, count_values-insert_trade is_live c.id (new_cred c kind join l) s.creds)
  Change-counted k t (workload_rekeyed id key c present is) h =
      let (there, live_before) = cred-found s id c present in
      let v : CredState = record c {
        cred = record c.cred { kms = some key; enc_pub = kms_name x key };
      } in
      ground (arith, h, there, live_before, count_values-insert_trade is_live id v s.creds)
  Change-counted k t (cred_removed b c decoded present) h =
      let (there, live_before) = cred-found s b.id c present in
      let v : CredState = record c {
        active = false;
        removed_seq = l.seq;
        removed_time = l.ctime;
        destroyed = b.destroyed;
        reason = b.reason;
      } in
      ground (
        arith,
        h,
        there,
        live_before,
        count_values-insert_trade is_live b.id v s.creds,
        passes-le-count_values is_live b.id s.creds,
      )
  Change-counted k _ (key_rotated key t version made) h =
      subst (λ (v : State). v.active ≡ live v) (sym (set_key-result s key l t made)) h
  Change-counted k t (access_added project root fresh) h = h
  Change-counted k t (access_removed project) h = h

  pub record SameFrame (t : State) : Type 0 where
    pub group : t.group ≡ s.group
    pub seq : t.seq ≡ s.seq
    pub hashes : t.hashes ≡ s.hashes
    pub links : t.links ≡ s.links
    pub signer_seqs : t.signer_seqs ≡ s.signer_seqs

  set_key-SameFrame : (k : GroupKey) (t : State) → set_key s k l ≡ ok t → SameFrame t
  set_key-SameFrame k t made =
      let r = set_key-result s k l t made in
      record {
        group = ap (λ (v : State). v.group) r;
        seq = ap (λ (v : State). v.seq) r;
        hashes = ap (λ (v : State). v.hashes) r;
        links = ap (λ (v : State). v.links) r;
        signer_seqs = ap (λ (v : State). v.signer_seqs) r;
      }

  -- A link changes neither the position of the chain nor what is recorded of its links.
  pub Change-SameFrame : (k : LinkType) (t : State) → Change x s l k t → SameFrame t
  Change-SameFrame k _ (created b t at first made) =
      let f = set_key-SameFrame b.key t made in
      record {
        group = f.group;
        seq = f.seq;
        hashes = f.hashes;
        links = f.links;
        signer_seqs = f.signer_seqs;
      }
  Change-SameFrame k _ (key_rotated key t version made) = set_key-SameFrame key t made
  Change-SameFrame k _ _ = record {
    group = refl;
    seq = refl;
    hashes = refl;
    links = refl;
    signer_seqs = refl;
  }

-- One hash and one link for each position, a right count of the active credentials, and bounded
-- numbers of people, active credentials and projects.
pub record IsBounded (s : State) : Type 0 where
  pub hashes : length s.hashes ≡ s.seq
  pub links : length s.links ≡ s.seq
  pub counted : s.active ≡ length (active_creds s none)
  pub admins : length s.admins ≤ max_admins
  pub members : length s.members ≤ max_members
  pub creds : s.active ≤ max_creds
  pub access : length s.access ≤ max_projects

count_values-wanted :
    (m : Dict CredState)
    → count_values (λ c. c.active && wanted none c.kind) m ≡ count_values is_live m
unfolding count_values
count_values-wanted [] = refl
count_values-wanted ((k, c) ∷ m) = ground (arith, count_values-wanted m)

length-active_creds : (s : State) → length (active_creds s none) ≡ live s
unfolding active_creds
length-active_creds s =
    let p = λ (c : CredState). c.active && wanted none c.kind in
    length-sort by_name (values_where p s.creds)
    ∙ length-values_where p s.creds
    ∙ count_values-wanted s.creds

check_link-seq :
    (s : State) (l : Link) → check_link s l ≡ ok tt → s.seq + 1 < 2 ^ 64 → l.seq ≡ s.seq + 1
unfolding check_link
check_link-seq s l h small = ground arith

module _ (x : External) (chains : Chains) where
  step-IsBounded :
      (s : State) (e : Envelope) (u : State)
      → s.seq + 1 < 2 ^ 64
      → step x chains s (some e) ≡ ok u
      → IsBounded s
      → IsBounded u × (u.seq ≡ s.seq + 1)
  unfolding check_size active_creds
  step-IsBounded s e u small h b =
      let st = step-Stepped x chains s e u h in
      let l = st.link in
      let kept = Change-SameFrame x s l _ st.applied st.change in
      let now =
        Change-counted x s l _ st.applied st.change
          (omega (arith, b.counted, length-active_creds s)) in
      let at = check_link-seq s l st.checked small in
      let hashes = length-append st.applied.hashes (hash x.team.keys.crypto e ∷ []) in
      let links = length-append st.applied.links (l ∷ []) in
      let sized = st.sized in
      rw st.result (
        record {
          hashes = ground (arith, hashes, kept, at, b);
          links = ground (arith, links, kept, at, b);
          counted = omega (arith, now, length-active_creds st.applied);
          admins = ground (arith, sized);
          members = ground (arith, sized);
          creds = ground (arith, sized);
          access = ground (arith, sized);
        },
        at,
      )

  steps-IsBounded :
      (s : State) (es : List (Option Envelope)) (u : State)
      → s.seq + length es < 2 ^ 64
      → steps x chains s es ≡ ok u
      → IsBounded s
      → IsBounded u × (u.seq ≡ s.seq + length es)
  unfolding steps
  steps-IsBounded s [] u small h b =
      let same : s ≡ u = ground arith in
      subst (λ v. IsBounded v × (v.seq ≡ s.seq + 0)) same (b, omega arith)
  steps-IsBounded s (none ∷ es) u small h b = absurd (ground (arith, step_nil x chains s))
  steps-IsBounded s (some e ∷ es) u small h b =
      let (t, one, rest) =
        >>=-eq-ok (wrapped "group chain link %d: %w" (step x chains s (some e))) _ h in
      let made : step x chains s (some e) ≡ ok t = ground arith in
      let (bt, at) = step-IsBounded s e t (omega arith) made b in
      let (bu, end) = steps-IsBounded t es u (omega arith) rest bt in (bu, omega arith)

  -- Every group chain that is accepted has at most max_links links and gives a group at the position
  -- of its length, with one hash and one link for each position, the number of its active
  -- credentials in its counter, and at most max_admins admins and max_members members, former ones
  -- included, max_creds active credentials and max_projects projects.
  pub group_verify-IsBounded :
      (group : Text) (es : List (Option Envelope)) (u : State)
      → verify x chains group es ≡ ok u
      → IsBounded u × (u.seq ≡ length es) × (length es ≤ TeamTypes.max_links)
  unfolding verify active_creds values_where sort
  group_verify-IsBounded group es u h =
      let (_, _, h₁) = >>=-eq-ok (valid_group x.team group) _ h in
      let (_, short, h₂) = >>=-eq-ok (fail_if (ltb TeamTypes.max_links (length es)) _) _ h₁ in
      let few : length es ≤ 10000 = ground arith in
      let (b, at) = steps-IsBounded (start group) es u (omega arith) h₂ (record {
        hashes = refl;
        links = refl;
        counted = refl;
        admins = omega arith;
        members = omega arith;
        creds = omega arith;
        access = omega arith;
      }) in
      (b, omega arith, few)

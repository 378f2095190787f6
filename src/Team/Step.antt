-- ===== src/Team/Step.antt =====
-- internal/team/team.go: verifying a link as the next of a project chain, and a whole chain.
use esec_vault.Base.{
  ℕ, ◌+◌, ◌%◌, ◌^◌, Bool, true, false, ◌&&◌, ◌||◌, not, Option, none, some, List, [], ◌∷◌, ◌++◌,
  Text, lookup, insert, length, ltb, ◌==◌, text_eq, new, Result, ok, err, ◌>>=◌, ◌>>◌, fail_if,
  require_that, wrapped,
}
use esec_vault.Envelope.{Envelope, non_nil, check, decode, hash}
use esec_vault.Chain.Types.{hour, is_zero}
use esec_vault.Chain.Valid.{valid_user}
use esec_vault.Team.Types.{
  Link, LinkType, link_type, init, member_add, member_update, member_remove, env_set, env_rename,
  machine_add, machine_remove, group_set, archive, unarchive, unknown_type, ProjectRef, max_links,
  max_members, max_machines, max_envs, max_project_groups,
}
use esec_vault.Team.State.{State, start, head, admin}
use esec_vault.Team.Valid.{valid_project, valid_reason, root_pattern}
use esec_vault.Team.Access.{decode_body}
use esec_vault.Team.Envs.{apply_env_set, rename_env}
use esec_vault.Team.Members.{
  ref_or, apply_init, apply_member_add, apply_member_update, apply_member_remove,
}
use esec_vault.Team.Machines.{apply_machine_add, apply_machine_remove}
use esec_vault.Team.Groups.{apply_group_set}
use esec_vault.Team.External.{External, Chains}
use esec_vault.Team.Signer.{kind_link, is_init, signer_root, check_signer}

abbrev pub leaves : LinkType → Bool
leaves member_remove = true
leaves _ = false

abbrev pub is_unarchive : LinkType → Bool
is_unarchive unarchive = true
is_unarchive _ = false

abbrev pub seq_or : Option ℕ → ℕ
seq_or none = 0
seq_or (some n) = n

-- the position that a signer has signed as of
unfoldable pub signer_seq : State → Text → ℕ
signer_seq s user = seq_or (lookup user s.signer_seqs)

-- the tests of `step` on a decoded link before its signer
unfoldable pub check_link : State → Link → Result (Unit {0})
check_link s l = do
  require_that (text_eq l.project s.project) (new "link belongs to another project")
  fail_if (not (l.seq == (s.seq + 1) % 2 ^ 64) || not (text_eq l.prev (head s)))
      (new "link is out of sequence")
  fail_if (is_zero l.ctime) (new "link time missing")
  fail_if (not (is_zero s.last_time) && ltb (l.ctime + hour) s.last_time)
      (new "link time goes backwards")
  valid_user l.signer

unfoldable pub check_size : State → Result (Unit {0})
check_size s =
    fail_if
      (ltb max_members (length s.members)
        || ltb max_machines (length s.machines)
        || ltb max_envs (length s.envs)
        || ltb max_project_groups (length s.groups))
      (new "the project has too many members, machines, groups or environments")

-- the guards of `apply` before its `switch`
unfoldable pub may_apply : LinkType → State → Link → Result (Unit {0})
may_apply t s l = do
  fail_if (not (is_init t) && (l.seq == 1)) (new "a project chain must start with an init link")
  fail_if (not (is_init t) && not (leaves t) && not (admin s l.signer))
      (new "only an admin can make a %s link")
  fail_if (s.archived && not (is_unarchive t) && not (leaves t))
      (new "%s is archived: unarchive it first")

module _ (x : External) where
  unfoldable pub peek_link : Envelope → Result Link
  peek_link e = do
    check e
    require_that (text_eq e.kind kind_link) (new "not a project chain link")
    decode x.link e

  abbrev pub valid_successor : State → Option ProjectRef → Result (Unit {0})
  valid_successor s none = ok tt
  valid_successor s (some ref) = do
    valid_project x ref.project
    fail_if (text_eq ref.project s.project || not (root_pattern ref.root))
        (new "invalid successor project")

  unfoldable pub apply_unarchive : State → Link → Result State
  apply_unarchive s l = do
    b ← decode_body x.unarchive l
    valid_reason x b.reason
    require_that s.archived (new "%s is not archived")
    ok (record s { archived = false; successor = none })

  unfoldable pub apply_archive : State → Link → Result State
  apply_archive s l = do
    b ← decode_body x.archive l
    valid_reason x b.reason
    valid_successor s b.successor
    ok (record s { archived = true; successor = ref_or b.successor s.successor })

  -- the `switch` of `apply`
  unfoldable pub apply_type : LinkType → State → Link → Result State
  apply_type archive s l = apply_archive s l
  apply_type unarchive s l = apply_unarchive s l
  apply_type init s l = apply_init x s l
  apply_type member_add s l = apply_member_add x s l
  apply_type member_update s l = apply_member_update x s l
  apply_type member_remove s l = apply_member_remove x s l
  apply_type env_set s l = apply_env_set x s l
  apply_type env_rename s l = rename_env x s l
  apply_type machine_add s l = apply_machine_add x s l
  apply_type machine_remove s l = apply_machine_remove x s l
  apply_type group_set s l = apply_group_set x s l
  apply_type unknown_type s l = err (new "unknown link type %q")

  unfoldable pub apply : State → Link → Result State
  apply s l = do may_apply (link_type l.typ) s l; apply_type (link_type l.typ) s l

  -- the signer checked, the link applied and recorded
  unfoldable pub step_link : Chains → State → Envelope → Link → Result State
  step_link chains s e l = do
    root ← signer_root x s l
    check_signer x s e l root chains
    fail_if (ltb l.signer_seq (signer_seq s l.signer))
        (new "%s signed as of an earlier position of their user chain than before")
    t ← apply s l
    check_size t
    ok (record t {
      signer_seqs = insert l.signer l.signer_seq t.signer_seqs;
      seq = l.seq;
      hashes = t.hashes ++ hash x.keys.crypto e ∷ [];
      last_time = l.ctime;
      links = t.links ++ l ∷ [];
    })

  unfoldable pub step : Chains → State → Option Envelope → Result State
  step chains s ptr = do e ← non_nil ptr; l ← peek_link e; check_link s l; step_link chains s e l

  -- `Next`
  unfoldable pub next : Chains → State → Option Envelope → Result State
  next chains s e = step chains s e

  -- the loop of `Verify`
  unfoldable pub steps : Chains → State → List (Option Envelope) → Result State
  steps chains s [] = ok s
  steps chains s (e ∷ es) =
      wrapped "project chain link %d: %w" (step chains s e) >>= λ t. steps chains t es

  unfoldable pub verify : Chains → Text → List (Option Envelope) → Result State
  verify chains project envelopes = do
    valid_project x project
    fail_if (ltb max_links (length envelopes)) (new "project chain too long")
    steps chains (start project) envelopes

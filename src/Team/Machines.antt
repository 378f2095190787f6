-- ===== src/Team/Machines.antt =====
-- internal/team/team.go: the link types for machines.
use esec_vault.Base.{
  Bool, true, false, ◌||◌, Option, none, some, codes, lookup, insert, any_value, length, ◌==◌,
  text_eq, is_some, new, Result, ok, err, ◌>>=◌, ◌>>◌, fail_if,
}
use esec_vault.Team.Types.{Link, Machine}
use esec_vault.Team.State.{State, MachineState, machine}
use esec_vault.Team.Valid.{validate_machine, valid_reason}
use esec_vault.Team.Oidc.{validate_any}
use esec_vault.Team.Access.{decode_body, check_access, expose_each}
use esec_vault.Team.External.{External}

abbrev pub shares_key : Machine → MachineState → Bool
shares_key m old = text_eq old.machine.sign_pub m.sign_pub || text_eq old.machine.enc_pub m.enc_pub

abbrev pub machine_or : Option MachineState → Result MachineState
machine_or none = err (new "machine %s is not active")
machine_or (some m) = ok m

module _ (x : External) where
  unfoldable pub apply_machine_add : State → Link → Result State
  apply_machine_add s l = do
    b ← decode_body x.machine_add l
    validate_machine b.machine
    fail_if (is_some (lookup b.machine.id s.machines)) (new "machine id reused")
    fail_if (any_value (shares_key b.machine) s.machines) (new "machine keys reused")
    fail_if (length b.envs == 0) (new "a machine needs at least one environment")
    envs ← check_access s false b.envs
    validate_any b.oidc
    ok (record s {
      machines =
          insert b.machine.id
            (record {
              machine = b.machine;
              envs = envs;
              oidc = b.oidc;
              active = true;
              added_by = l.signer;
              added_seq = l.seq;
              removed_seq = 0;
            })
            s.machines;
    })

  unfoldable pub apply_machine_remove : State → Link → Result State
  apply_machine_remove s l = do
    b ← decode_body x.machine_remove l
    valid_reason x b.reason
    m ← machine_or (machine s b.id)
    ok (record s {
      machines = insert b.id (record m { active = false; removed_seq = l.seq }) s.machines;
      envs = expose_each m.envs m.machine.id m.machine.name l (λ _. codes "machine removed") s.envs;
    })

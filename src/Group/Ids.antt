-- ===== src/Group/Ids.antt =====
-- internal/team/machine.go and group.go: ids made of random bytes (base32Lower).
use esec_vault.Base.{
  ℕ, zero, suc, ◌+◌, ◌-◌, ◌*◌, ◌/◌, ◌%◌, ◌^◌, ◌<◌, ◌≡◌, refl, true, Bool, if◌then◌else◌, Option,
  some, none, [], ◌∷◌, ◌++◌, Text, codes, ok, arith, all, all-append, length, length-append,
  get_elem?, is_lower_alnum, leb, ltb, cut_prefix, matches,
}
use mathlib.Core.Path.{subst}
use esec_vault.Team.Valid.{valid_machine_id, machine_pattern}
use esec_vault.Group.Types.{Kind, machine, token, workload}
use esec_vault.Group.Valid.{valid_cred_id, cred_pattern}

abbrev pub alphabet : Text
alphabet = codes "abcdefghijklmnopqrstuvwxyz234567"

abbrev pub or_zero : Option ℕ → ℕ
or_zero none = 0
or_zero (some c) = c

-- `alphabet[n&31]`
unfoldable pub letter : ℕ → ℕ
letter n = or_zero (get_elem? alphabet (n % 32))

-- `for bits >= 5`, with the bits that are left; `rounds` bounds the loop
unfoldable pub write_letters : ℕ → ℕ → ℕ → Text × ℕ
write_letters zero buf bits = ([], bits)
write_letters (suc rounds) buf bits =
    let (out, left) = write_letters rounds buf (bits - 5) in
    if leb 5 bits then (letter (buf / 2 ^ (bits - 5)) ∷ out, left) else ([], bits)

-- `buf<<8 | uint64(c)`
abbrev pub shifted : ℕ → ℕ → ℕ
shifted buf c = buf * 256 % 2 ^ 64 + c

-- The loop over the bytes and what follows it. At most 12 bits are at hand, so that two rounds
-- are enough for the inner loop.
unfoldable pub write_bytes : ℕ → ℕ → Text → Text
write_bytes buf bits [] = if ltb 0 bits then letter (buf * 2 ^ (5 - bits) % 2 ^ 64) ∷ [] else []
write_bytes buf bits (c ∷ cs) =
    let (out, left) = write_letters 2 (shifted buf c) (bits + 8) in
    out ++ write_bytes (shifted buf c) left cs

-- `base32Lower`
unfoldable pub base32_lower : Text → Text
base32_lower b = write_bytes 0 0 b

-- the id that `NewMachineKey` makes of random bytes
unfoldable pub new_machine_id : Text → Text
new_machine_id b = codes "m_" ++ base32_lower b

-- the id that `NewCredKey` makes of random bytes
unfoldable pub new_cred_id : Kind → Text → Text
new_cred_id token b = codes "t_" ++ base32_lower b
new_cred_id _ b = codes "m_" ++ base32_lower b

-- `NewWorkloadID`, of random bytes
unfoldable pub new_workload_id : Text → Text
new_workload_id b = codes "w_" ++ base32_lower b

or_zero-all :
    (p : ℕ → Bool) (xs : Text) (i : ℕ)
    → all p xs ≡ true
    → i < length xs
    → p (or_zero (get_elem? xs i)) ≡ true
or_zero-all p [] i good inside = absurd (omega arith)
or_zero-all p (x ∷ xs) zero good inside = ground (arith, good)
or_zero-all p (x ∷ xs) (suc i) good inside = or_zero-all p xs i (ground (arith, good)) (omega arith)

letter-alnum : (n : ℕ) → is_lower_alnum (letter n) ≡ true
unfolding letter
letter-alnum n = or_zero-all is_lower_alnum alphabet (n % 32) refl (omega arith)

-- what the inner loop writes and leaves
record IsWritten (bits : ℕ) (w : Text × ℕ) : Type 0 where
  alnum : all is_lower_alnum w.0 ≡ true
  count : length w.0 ≡ bits / 5
  left : w.1 ≡ bits % 5

write_letters-IsWritten : (buf bits : ℕ) → bits < 15 → IsWritten bits (write_letters 2 buf bits)
unfolding write_letters
write_letters-IsWritten buf bits few = record {
  alnum =
      ground (arith, letter-alnum (buf / 2 ^ (bits - 5)), letter-alnum (buf / 2 ^ (bits - 5 - 5)));
  count = ground (arith, few);
  left = ground (arith, few);
}

-- letters for all bits at hand, the last one filled up
record AreLetters (bits : ℕ) (t : Text) : Type 0 where
  alnum : all is_lower_alnum t ≡ true
  count : length t ≡ (bits + 4) / 5

write_bytes-AreLetters :
    (cs : Text) (buf bits : ℕ)
    → bits < 5
    → AreLetters (bits + 8 * length cs) (write_bytes buf bits cs)
unfolding write_bytes
write_bytes-AreLetters [] buf bits few = record {
  alnum = ground (arith, letter-alnum (buf * 2 ^ (5 - bits) % 2 ^ 64));
  count = ground (arith, few);
}
write_bytes-AreLetters (c ∷ cs) buf bits few =
    let now = shifted buf c in
    let (out, left) = write_letters 2 now (bits + 8) in
    let written = write_letters-IsWritten now (bits + 8) (omega arith) in
    let rest = write_bytes-AreLetters cs now left (omega (arith, written.left)) in
    record {
      alnum = ground (
        arith,
        all-append is_lower_alnum out (write_bytes now left cs),
        written.alnum,
        rest.alnum,
      );
      count = omega (
        arith,
        length-append out (write_bytes now left cs),
        written.count,
        written.left,
        rest.count,
      );
    }

-- The ids that `b` makes pass the checks of ids.
pub record AreIds (b : Text) : Type 0 where
  pub of_machine : valid_machine_id (new_machine_id b) ≡ ok tt
  pub of_cred : (k : Kind) → valid_cred_id (new_cred_id k b) ≡ ok tt
  pub of_workload : valid_cred_id (new_workload_id b) ≡ ok tt

module _ (b : Text) (size : length b ≡ 15) where
  base32_lower-AreLetters : AreLetters 120 (base32_lower b)
  unfolding base32_lower
  base32_lower-AreLetters =
      subst (λ n. AreLetters n (write_bytes 0 0 b)) (omega (arith, size))
        (write_bytes-AreLetters b 0 0 (omega arith))

  new_machine_id-valid : valid_machine_id (new_machine_id b) ≡ ok tt
  unfolding new_machine_id valid_machine_id machine_pattern matches cut_prefix
  new_machine_id-valid =
      ground (arith, base32_lower-AreLetters.alnum, base32_lower-AreLetters.count)

  new_workload_id-valid : valid_cred_id (new_workload_id b) ≡ ok tt
  unfolding new_workload_id valid_cred_id cred_pattern matches cut_prefix
  new_workload_id-valid =
      ground (arith, base32_lower-AreLetters.alnum, base32_lower-AreLetters.count)

  new_cred_id-valid : (k : Kind) → valid_cred_id (new_cred_id k b) ≡ ok tt
  unfolding new_cred_id valid_cred_id cred_pattern matches cut_prefix
  new_cred_id-valid token =
      ground (arith, base32_lower-AreLetters.alnum, base32_lower-AreLetters.count)
  new_cred_id-valid machine =
      ground (arith, base32_lower-AreLetters.alnum, base32_lower-AreLetters.count)
  new_cred_id-valid workload =
      ground (arith, base32_lower-AreLetters.alnum, base32_lower-AreLetters.count)

-- Of 15 random bytes, the ids that are made of them pass the checks of ids: those of machines of
-- projects, of machines and tokens of groups, and of workloads.
pub ids_valid : (b : Text) → length b ≡ 15 → AreIds b
ids_valid b size = record {
  of_machine = new_machine_id-valid b size;
  of_cred = new_cred_id-valid b size;
  of_workload = new_workload_id-valid b size;
}

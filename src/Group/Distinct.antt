-- ===== src/Group/Distinct.antt =====
-- About base32Lower of internal/team/machine.go, for two inputs.
use std.Path.{ap₂}
use esec_vault.Base.{
  ℕ, zero, suc, ◌+◌, ◌-◌, ◌*◌, ◌/◌, ◌%◌, ◌^◌, ◌<◌, ◌≡◌, ◌≢◌, refl, sym, ◌∙◌, ap, true, Bool, ◌&&◌,
  if◌then◌else◌, [], ◌∷◌, Text, arith, all, length, get_elem?, leb, ltb, ◌==◌,
}
use esec_vault.Group.Types.{Kind, machine, token, workload}
use esec_vault.Group.Ids.{
  alphabet, or_zero, letter, shifted, write_letters, write_bytes, base32_lower, AreIds, ids_valid,
  new_machine_id, new_cred_id, new_workload_id,
}

-- what a letter stands for
abbrev value : ℕ → ℕ
value c = if leb b'a' c then c - b'a' else c - b'2' + 26

abbrev stand_for : ℕ → Text → Bool
stand_for i [] = true
stand_for i (x ∷ xs) = (value x == i) && stand_for (i + 1) xs

value-get_elem? :
    (i k : ℕ) (xs : Text)
    → stand_for k xs ≡ true
    → i < length xs
    → value (or_zero (get_elem? xs i)) ≡ k + i
value-get_elem? i k [] are inside = absurd (omega arith)
value-get_elem? zero k (x ∷ xs) are inside = ground (arith, are)
value-get_elem? (suc i) k (x ∷ xs) are inside =
    let rest = value-get_elem? i (k + 1) xs (ground (arith, are)) (omega arith) in
    omega (arith, rest)

value-letter : (n : ℕ) → value (letter n) ≡ n % 32
unfolding letter
value-letter n = omega (arith, value-get_elem? (n % 32) 0 alphabet refl (omega arith))

letter-injective : (m n : ℕ) → letter m ≡ letter n → m % 32 ≡ n % 32
letter-injective m n same = sym (value-letter m) ∙ (ap value same ∙ value-letter n)

-- The letters written and the bits left tell the bits that were at hand, and the byte.
no_bits :
    (buf c buf' c' : ℕ)
    → c < 256
    → c' < 256
    → letter (shifted buf c / 2 ^ 3) ≡ letter (shifted buf' c' / 2 ^ 3)
    → shifted buf c % 2 ^ 3 ≡ shifted buf' c' % 2 ^ 3
    → (buf % 2 ^ 0 ≡ buf' % 2 ^ 0) × (c ≡ c')
no_bits buf c buf' c' small small' high low =
    let high_bits = letter-injective (shifted buf c / 2 ^ 3) (shifted buf' c' / 2 ^ 3) high in
    (omega arith, omega arith)

one_bit :
    (buf c buf' c' : ℕ)
    → c < 256
    → c' < 256
    → letter (shifted buf c / 2 ^ 4) ≡ letter (shifted buf' c' / 2 ^ 4)
    → shifted buf c % 2 ^ 4 ≡ shifted buf' c' % 2 ^ 4
    → (buf % 2 ^ 1 ≡ buf' % 2 ^ 1) × (c ≡ c')
one_bit buf c buf' c' small small' high low =
    let high_bits = letter-injective (shifted buf c / 2 ^ 4) (shifted buf' c' / 2 ^ 4) high in
    (omega arith, omega arith)

two_bits :
    (buf c buf' c' : ℕ)
    → c < 256
    → c' < 256
    → letter (shifted buf c / 2 ^ 5) ≡ letter (shifted buf' c' / 2 ^ 5)
    → letter (shifted buf c / 2 ^ 0) ≡ letter (shifted buf' c' / 2 ^ 0)
    → shifted buf c % 2 ^ 0 ≡ shifted buf' c' % 2 ^ 0
    → (buf % 2 ^ 2 ≡ buf' % 2 ^ 2) × (c ≡ c')
two_bits buf c buf' c' small small' high middle low =
    let high_bits = letter-injective (shifted buf c / 2 ^ 5) (shifted buf' c' / 2 ^ 5) high in
    let middle_bits = letter-injective (shifted buf c / 2 ^ 0) (shifted buf' c' / 2 ^ 0) middle in
    (omega arith, omega arith)

three_bits :
    (buf c buf' c' : ℕ)
    → c < 256
    → c' < 256
    → letter (shifted buf c / 2 ^ 6) ≡ letter (shifted buf' c' / 2 ^ 6)
    → letter (shifted buf c / 2 ^ 1) ≡ letter (shifted buf' c' / 2 ^ 1)
    → shifted buf c % 2 ^ 1 ≡ shifted buf' c' % 2 ^ 1
    → (buf % 2 ^ 3 ≡ buf' % 2 ^ 3) × (c ≡ c')
three_bits buf c buf' c' small small' high middle low =
    let high_bits = letter-injective (shifted buf c / 2 ^ 6) (shifted buf' c' / 2 ^ 6) high in
    let middle_bits = letter-injective (shifted buf c / 2 ^ 1) (shifted buf' c' / 2 ^ 1) middle in
    (omega arith, omega arith)

four_bits :
    (buf c buf' c' : ℕ)
    → c < 256
    → c' < 256
    → letter (shifted buf c / 2 ^ 7) ≡ letter (shifted buf' c' / 2 ^ 7)
    → letter (shifted buf c / 2 ^ 2) ≡ letter (shifted buf' c' / 2 ^ 2)
    → shifted buf c % 2 ^ 2 ≡ shifted buf' c' % 2 ^ 2
    → (buf % 2 ^ 4 ≡ buf' % 2 ^ 4) × (c ≡ c')
four_bits buf c buf' c' small small' high middle low =
    let high_bits = letter-injective (shifted buf c / 2 ^ 7) (shifted buf' c' / 2 ^ 7) high in
    let middle_bits = letter-injective (shifted buf c / 2 ^ 2) (shifted buf' c' / 2 ^ 2) middle in
    (omega arith, omega arith)

abbrev pub is_byte : ℕ → Bool
is_byte c = ltb c 256

-- What two inputs that are written the same have in common: the bits at hand, and the bytes.
record AreSame (bits buf buf' : ℕ) (cs ds : Text) : Type 0 where
  at_hand : buf % 2 ^ bits ≡ buf' % 2 ^ bits
  bytes : cs ≡ ds

with_byte :
    {bits left buf buf' now now' : ℕ} {cs ds : Text} (c d : ℕ)
    → AreSame left now now' cs ds
    → (now % 2 ^ left ≡ now' % 2 ^ left → (buf % 2 ^ bits ≡ buf' % 2 ^ bits) × (c ≡ d))
    → AreSame bits buf buf' (c ∷ cs) (d ∷ ds)
with_byte c d rest tell =
    let (bits, byte) = tell rest.at_hand in
    record { at_hand = bits; bytes = ap₂ (λ x xs. x ∷ xs) byte rest.bytes }

-- the last letter has the bits that were left
last-bits :
    (buf buf' n : ℕ)
    → letter (buf * 2 ^ n % 2 ^ 64) ≡ letter (buf' * 2 ^ n % 2 ^ 64)
    → buf * 2 ^ n % 2 ^ 64 % 32 ≡ buf' * 2 ^ n % 2 ^ 64 % 32
last-bits buf buf' n same = letter-injective (buf * 2 ^ n % 2 ^ 64) (buf' * 2 ^ n % 2 ^ 64) same

write_bytes-AreSame :
    (cs ds : Text) (bits buf buf' : ℕ)
    → bits < 5
    → all is_byte cs ≡ true
    → all is_byte ds ≡ true
    → length cs ≡ length ds
    → write_bytes buf bits cs ≡ write_bytes buf' bits ds
    → AreSame bits buf buf' cs ds
unfolding write_bytes write_letters
write_bytes-AreSame [] (d ∷ ds) bits buf buf' few good good' size same =
    absurd (omega (arith, size))
write_bytes-AreSame (c ∷ cs) [] bits buf buf' few good good' size same =
    absurd (omega (arith, size))
write_bytes-AreSame [] [] zero buf buf' few good good' size same = record {
  at_hand = omega arith;
  bytes = refl;
}
write_bytes-AreSame [] [] (suc zero) buf buf' few good good' size same =
    let last = last-bits buf buf' 4 (ground (arith, same)) in
    record { at_hand = omega (arith, last); bytes = refl }
write_bytes-AreSame [] [] (suc (suc zero)) buf buf' few good good' size same =
    let last = last-bits buf buf' 3 (ground (arith, same)) in
    record { at_hand = omega (arith, last); bytes = refl }
write_bytes-AreSame [] [] (suc (suc (suc zero))) buf buf' few good good' size same =
    let last = last-bits buf buf' 2 (ground (arith, same)) in
    record { at_hand = omega (arith, last); bytes = refl }
write_bytes-AreSame [] [] (suc (suc (suc (suc zero)))) buf buf' few good good' size same =
    let last = last-bits buf buf' 1 (ground (arith, same)) in
    record { at_hand = omega (arith, last); bytes = refl }
write_bytes-AreSame (c ∷ cs) (d ∷ ds) zero buf buf' few good good' size same =
    with_byte c d
      (write_bytes-AreSame cs ds 3 (shifted buf c) (shifted buf' d) (omega arith)
        (ground (arith, good)) (ground (arith, good')) (omega (arith, size)) (ground (arith, same)))
      (no_bits buf c buf' d (ground (arith, good)) (ground (arith, good')) (ground (arith, same)))
write_bytes-AreSame (c ∷ cs) (d ∷ ds) (suc zero) buf buf' few good good' size same =
    with_byte c d
      (write_bytes-AreSame cs ds 4 (shifted buf c) (shifted buf' d) (omega arith)
        (ground (arith, good)) (ground (arith, good')) (omega (arith, size)) (ground (arith, same)))
      (one_bit buf c buf' d (ground (arith, good)) (ground (arith, good')) (ground (arith, same)))
write_bytes-AreSame (c ∷ cs) (d ∷ ds) (suc (suc zero)) buf buf' few good good' size same =
    with_byte c d
      (write_bytes-AreSame cs ds 0 (shifted buf c) (shifted buf' d) (omega arith)
        (ground (arith, good)) (ground (arith, good')) (omega (arith, size)) (ground (arith, same)))
      (two_bits buf c buf' d (ground (arith, good)) (ground (arith, good')) (ground (arith, same))
        (ground (arith, same)))
write_bytes-AreSame (c ∷ cs) (d ∷ ds) (suc (suc (suc zero))) buf buf' few good good' size same =
    with_byte c d
      (write_bytes-AreSame cs ds 1 (shifted buf c) (shifted buf' d) (omega arith)
        (ground (arith, good)) (ground (arith, good')) (omega (arith, size)) (ground (arith, same)))
      (three_bits buf c buf' d (ground (arith, good)) (ground (arith, good')) (ground (arith, same))
        (ground (arith, same)))
write_bytes-AreSame (c ∷ cs) (d ∷ ds) (suc (suc (suc (suc zero)))) buf buf' few good good' size
      same =
    with_byte c d
      (write_bytes-AreSame cs ds 2 (shifted buf c) (shifted buf' d) (omega arith)
        (ground (arith, good)) (ground (arith, good')) (omega (arith, size)) (ground (arith, same)))
      (four_bits buf c buf' d (ground (arith, good)) (ground (arith, good')) (ground (arith, same))
        (ground (arith, same)))
write_bytes-AreSame cs ds (suc (suc (suc (suc (suc n))))) buf buf' few good good' size same =
    absurd (omega arith)

-- Two inputs of the same length that base32Lower writes the same are the same, however many bytes
-- they have: no bit is lost, though the buffer of 64 bits overflows.
pub base32_lower-injective :
    (b d : Text)
    → all is_byte b ≡ true
    → all is_byte d ≡ true
    → length b ≡ length d
    → base32_lower b ≡ base32_lower d
    → b ≡ d
unfolding base32_lower
base32_lower-injective b d good good' size same =
    (write_bytes-AreSame b d 0 0 0 (omega arith) good good' size same).bytes

-- What is promised of the ids that `b` and `d` make: they are valid, and not the same.
pub record AreNewIds (b d : Text) : Type 0 where
  pub valid : AreIds b
  pub machines : new_machine_id b ≢ new_machine_id d
  pub creds : (k : Kind) → new_cred_id k b ≢ new_cred_id k d
  pub workloads : new_workload_id b ≢ new_workload_id d

module _ (b d : Text) (same : base32_lower b ≡ base32_lower d → b ≡ d) where
  new_machine_id-injective : new_machine_id b ≡ new_machine_id d → b ≡ d
  unfolding new_machine_id
  new_machine_id-injective ids = same (ground (arith, ids))

  new_workload_id-injective : new_workload_id b ≡ new_workload_id d → b ≡ d
  unfolding new_workload_id
  new_workload_id-injective ids = same (ground (arith, ids))

  new_cred_id-injective : (k : Kind) → new_cred_id k b ≡ new_cred_id k d → b ≡ d
  unfolding new_cred_id
  new_cred_id-injective token ids = same (ground (arith, ids))
  new_cred_id-injective machine ids = same (ground (arith, ids))
  new_cred_id-injective workload ids = same (ground (arith, ids))

-- Of 15 random bytes, the ids that are made of them pass the checks of ids, those of machines of
-- projects, of machines and tokens of groups, and of workloads; and 15 other bytes make other ids.
pub ids-AreNewIds :
    (b d : Text)
    → all is_byte b ≡ true
    → all is_byte d ≡ true
    → length b ≡ 15
    → length d ≡ 15
    → b ≢ d
    → AreNewIds b d
ids-AreNewIds b d good good' size size' other =
    let same = base32_lower-injective b d good good' (size ∙ sym size') in
    record {
      valid = ids_valid b size;
      machines = λ ids. other (new_machine_id-injective b d same ids);
      creds = λ k ids. other (new_cred_id-injective b d same k ids);
      workloads = λ ids. other (new_workload_id-injective b d same ids);
    }

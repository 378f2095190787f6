-- ===== src/Chain/Names.antt =====
-- `SanitizeName` makes any text a valid device name.
use esec_vault.Base.{
  ℕ, suc, zero, ◌≡◌, ◌≤◌, refl, Bool, true, ◌&&◌, ◌||◌, not, List, [], ◌∷◌, Text, ok, arith, all,
  length, take, leb, ltb, if◌then◌else◌, Bool-cases, inl, inr, is_alnum, &&_left, &&_right,
}
use esec_vault.Chain.Valid.{
  is_name_char, is_name_mark, name_pattern, valid_device_name, sanitize_from, trim_left, or_device,
  sanitize_name,
}

sanitize_from-all : (room : ℕ) (rs : List ℕ) → all is_name_char (sanitize_from room rs) ≡ true
unfolding sanitize_from
sanitize_from-all room [] = refl
sanitize_from-all zero (r ∷ rs) = refl
sanitize_from-all (suc n) (r ∷ rs) = ground (arith, sanitize_from-all n rs)

length-sanitize_from : (room : ℕ) (rs : List ℕ) → length (sanitize_from room rs) ≤ room
unfolding sanitize_from
length-sanitize_from room [] = omega arith
length-sanitize_from zero (r ∷ rs) = omega arith
length-sanitize_from (suc n) (r ∷ rs) = omega (arith, length-sanitize_from n rs)

length-trim_left : (s : Text) → length (trim_left s) ≤ length s
unfolding trim_left
length-trim_left [] = omega arith
length-trim_left (c ∷ s) = ground (arith, length-trim_left s)

-- What is left begins with no mark.
abbrev starts_well : Text → Bool
starts_well [] = true
starts_well (c ∷ s) = not (is_name_mark c)

trim_left-all :
    (s : Text)
    → all is_name_char s ≡ true
    → (all is_name_char (trim_left s) ≡ true) × (starts_well (trim_left s) ≡ true)
unfolding trim_left
trim_left-all [] h = (refl, refl)
trim_left-all (c ∷ s) h = elim (Bool-cases (is_name_mark c)) [
  | inl mark ↦ rw mark (trim_left-all s (ground arith))
  | inr other ↦ rw other (h, ground arith)
]

or_left : (a b : Bool) → (a || b) ≡ true → not b ≡ true → a ≡ true
or_left a b h k = ground arith

and_both : (a b c : Bool) → a ≡ true → b ≡ true → c ≡ true → (a && b && c) ≡ true
and_both a b c h k l = ground arith

named :
    (s : Text)
    → all is_name_char s ≡ true
    → starts_well s ≡ true
    → length s ≤ 64
    → name_pattern (or_device s) ≡ true
unfolding name_pattern
named [] h w le = refl
named (c ∷ s) h w le =
    and_both (is_alnum c) (all is_name_char s) (leb (length s) 63)
      (or_left (is_alnum c) (is_name_mark c) (&&_left (is_name_char c) (all is_name_char s) h) w)
      (&&_right (is_name_char c) (all is_name_char s) h) (ground arith)

short : (out : Text) → length out ≤ 64 → (if ltb 64 (length out) then take 64 out else out) ≡ out
short out le = ground arith

-- Whatever runes it is given, `sanitize_name` returns a valid device name.
pub sanitize_name-valid : (runes : List ℕ) → valid_device_name (sanitize_name runes) ≡ ok tt
unfolding valid_device_name sanitize_name
sanitize_name-valid runes =
    let kept : Text = sanitize_from 64 runes in
    let size = length-trim_left kept in
    let le : length (trim_left kept) ≤ 64 = omega (arith, size, length-sanitize_from 64 runes) in
    let (chars, well) = trim_left-all kept (sanitize_from-all 64 runes) in
    rw (short (trim_left kept) le) (ground (arith, named (trim_left kept) chars well le))

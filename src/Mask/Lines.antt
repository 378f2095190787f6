-- ===== src/Mask/Lines.antt =====
-- About the lines of values that NewMasker of internal/runcmd/mask.go masks.
use esec_vault.Base.{
  all-append, any-append, ℕ, Bool, true, false, ◌&&◌, ◌||◌, not, List, [], ◌∷◌, inl, inr, Text,
  length, all, any, text_eq, text_eq_refl, text_eq_iff, ltb, leb, ◌==◌, Bool-cases, sort,
  insert_sorted, ◌≡◌, refl, arith,
}
use esec_vault.Mask.Replacer.{
  newline, min_masked, seen, onto_first, trimmed, split_lines, trim_right, add_part, add_lines,
  add_values, masked_parts,
}

abbrev pub no_newline : Text → Bool
no_newline = all (λ (c : ℕ). not (c == newline))

-- one line, of at least min_masked bytes
abbrev pub is_part : Text → Bool
is_part p = leb min_masked (length p) && no_newline p

onto_first-no_newline :
    (c : ℕ) (lines : List Text)
    → (c == newline) ≡ false
    → all no_newline lines ≡ true
    → all no_newline (onto_first c lines) ≡ true
onto_first-no_newline c [] other h = ground arith
onto_first-no_newline c (line ∷ lines) other h = ground arith

split_lines-no_newline : (s : Text) → all no_newline (split_lines s) ≡ true
unfolding split_lines
split_lines-no_newline [] = refl
split_lines-no_newline (c ∷ s) =
    ground (arith, onto_first-no_newline c (split_lines s), split_lines-no_newline s)

trimmed-no_newline :
    (c : ℕ) (s : Text)
    → (c == newline) ≡ false
    → no_newline s ≡ true
    → no_newline (trimmed c s) ≡ true
trimmed-no_newline c [] other h = ground arith
trimmed-no_newline c (d ∷ s) other h = ground arith

trim_right-no_newline : (s : Text) → no_newline s ≡ true → no_newline (trim_right s) ≡ true
unfolding trim_right
trim_right-no_newline [] h = refl
trim_right-no_newline (c ∷ s) h =
    ground (arith, trimmed-no_newline c (trim_right s), trim_right-no_newline s)

module _ {ℓ} {A : Type ℓ} (p : A → Bool) where
  module _ (less : A → A → Bool) where
    all-insert_sorted : (x : A) (xs : List A) → all p (insert_sorted less x xs) ≡ (p x && all p xs)
    unfolding insert_sorted
    all-insert_sorted x [] = refl
    all-insert_sorted x (y ∷ xs) = ground (arith, all-insert_sorted x xs)

    any-insert_sorted : (x : A) (xs : List A) → any p (insert_sorted less x xs) ≡ (p x || any p xs)
    unfolding insert_sorted
    any-insert_sorted x [] = refl
    any-insert_sorted x (y ∷ xs) = ground (arith, any-insert_sorted x xs)

    all-sort : (xs : List A) → all p (sort less xs) ≡ all p xs
    unfolding sort
    all-sort [] = refl
    all-sort (x ∷ xs) = ground (arith, all-insert_sorted x (sort less xs), all-sort xs)

    any-sort : (xs : List A) → any p (sort less xs) ≡ any p xs
    unfolding sort
    any-sort [] = refl
    any-sort (x ∷ xs) = ground (arith, any-insert_sorted x (sort less xs), any-sort xs)

add_lines-is_part :
    (lines parts : List Text)
    → all no_newline lines ≡ true
    → all is_part parts ≡ true
    → all is_part (add_lines parts lines) ≡ true
unfolding add_lines
add_lines-is_part [] parts h k = k
add_lines-is_part (line ∷ lines) parts h k =
    add_lines-is_part lines (add_part parts (trim_right line)) (ground arith) (
      ground (
        arith,
        all-append is_part parts (trim_right line ∷ []),
        trim_right-no_newline line (ground arith),
      ))

add_values-is_part :
    (values parts : List Text)
    → all is_part parts ≡ true
    → all is_part (add_values parts values) ≡ true
unfolding add_values
add_values-is_part [] parts k = k
add_values-is_part (v ∷ values) parts k =
    add_values-is_part values (add_lines parts (split_lines v))
      (add_lines-is_part (split_lines v) parts (split_lines-no_newline v) k)

pub masked_parts-is_part : (values : List Text) → all is_part (masked_parts values) ≡ true
unfolding masked_parts
masked_parts-is_part values = ground (
  arith,
  all-sort is_part (λ (a b : Text). ltb (length b) (length a)) (add_values [] values),
  add_values-is_part values [] refl,
)

-- what is in the list stays in it
add_part-keeps :
    (p line : Text) (parts : List Text) → seen p parts ≡ true → seen p (add_part parts line) ≡ true
add_part-keeps p line parts h = ground (arith, any-append (text_eq p) parts (line ∷ []))

add_lines-keeps :
    (p : Text) (lines parts : List Text)
    → seen p parts ≡ true
    → seen p (add_lines parts lines) ≡ true
unfolding add_lines
add_lines-keeps p [] parts h = h
add_lines-keeps p (line ∷ lines) parts h =
    add_lines-keeps p lines (add_part parts (trim_right line))
      (add_part-keeps p (trim_right line) parts h)

add_values-keeps :
    (p : Text) (values parts : List Text)
    → seen p parts ≡ true
    → seen p (add_values parts values) ≡ true
unfolding add_values
add_values-keeps p [] parts h = h
add_values-keeps p (v ∷ values) parts h =
    add_values-keeps p values (add_lines parts (split_lines v))
      (add_lines-keeps p (split_lines v) parts h)

add_part-seen :
    (line : Text) (parts : List Text)
    → leb min_masked (length line) ≡ true
    → seen line (add_part parts line) ≡ true
add_part-seen line parts h =
    ground (arith, any-append (text_eq line) parts (line ∷ []), text_eq_refl line)

add_lines-seen :
    (line : Text) (lines parts : List Text)
    → seen line lines ≡ true
    → leb min_masked (length (trim_right line)) ≡ true
    → seen (trim_right line) (add_lines parts lines) ≡ true
unfolding add_lines
add_lines-seen line [] parts h long = absurd (cc)
add_lines-seen line (first ∷ lines) parts h long = elim (Bool-cases (text_eq line first)) [
  | inl same ↦
      add_lines-keeps (trim_right line) lines (add_part parts (trim_right first)) (
        ground (arith, (text_eq_iff line first).0 same, add_part-seen (trim_right line) parts long))
  | inr other ↦ add_lines-seen line lines (add_part parts (trim_right first)) (ground arith) long
]

add_values-seen :
    (v line : Text) (values parts : List Text)
    → seen v values ≡ true
    → seen line (split_lines v) ≡ true
    → leb min_masked (length (trim_right line)) ≡ true
    → seen (trim_right line) (add_values parts values) ≡ true
unfolding add_values
add_values-seen v line [] parts h k long = absurd (cc)
add_values-seen v line (first ∷ values) parts h k long = elim (Bool-cases (text_eq v first)) [
  | inl same ↦ add_values-keeps (trim_right line) values (add_lines parts (split_lines first)) (
      add_lines-seen line (split_lines first) parts (ground (arith, (text_eq_iff v first).0 same))
        long)
  | inr other ↦
      add_values-seen v line values (add_lines parts (split_lines first)) (ground arith) k long
]

-- a line of a value, if it is long enough
pub masked_parts-seen :
    (v line : Text) (values : List Text)
    → seen v values ≡ true
    → seen line (split_lines v) ≡ true
    → leb min_masked (length (trim_right line)) ≡ true
    → seen (trim_right line) (masked_parts values) ≡ true
unfolding masked_parts
masked_parts-seen v line values h k long = ground (
  arith,
  any-sort (text_eq (trim_right line)) (λ (a b : Text). ltb (length b) (length a))
      (add_values [] values),
  add_values-seen v line values [] h k long,
)

-- ===== src/Mask/Replacer.antt =====
-- internal/runcmd/mask.go: which texts are masked, and `strings.NewReplacer`, which at each byte
-- replaces the first of its texts that starts there.
use esec_vault.Base.{
  ℕ, zero, suc, ◌-◌, Bool, ◌&&◌, not, Option, none, some, List, [], ◌∷◌, ◌++◌, Text, codes, length,
  any, has_prefix, text_eq, ltb, leb, ◌==◌, if◌then◌else◌, sort,
}

abbrev pub newline : ℕ
newline = b'\n'

abbrev pub min_masked : ℕ
min_masked = 4

abbrev pub stars : Text
stars = codes "***"

abbrev pub onto_first : ℕ → List Text → List Text
onto_first c [] = (c ∷ []) ∷ []
onto_first c (line ∷ lines) = (c ∷ line) ∷ lines

-- `strings.Split(s, "\n")`
unfoldable pub split_lines : Text → List Text
split_lines [] = [] ∷ []
split_lines (c ∷ s) = if c == newline then [] ∷ split_lines s else onto_first c (split_lines s)

abbrev pub trimmed : ℕ → Text → Text
trimmed c [] = if c == b'\r' then [] else c ∷ []
trimmed c (d ∷ rest) = c ∷ (d ∷ rest)

-- `strings.TrimRight(s, "\r")`
unfoldable pub trim_right : Text → Text
trim_right [] = []
trim_right (c ∷ s) = trimmed c (trim_right s)

-- `seen[line]`
abbrev pub seen : Text → List Text → Bool
seen line = any (text_eq line)

abbrev pub add_part : List Text → Text → List Text
add_part parts line =
    if leb min_masked (length line) && not (seen line parts) then parts ++ line ∷ [] else parts

unfoldable pub add_lines : List Text → List Text → List Text
unfolding trim_right
add_lines parts [] = parts
add_lines parts (line ∷ lines) = add_lines (add_part parts (trim_right line)) lines

unfoldable pub add_values : List Text → List Text → List Text
unfolding add_lines split_lines
add_values parts [] = parts
add_values parts (v ∷ values) = add_values (add_lines parts (split_lines v)) values

-- longest first
unfoldable pub masked_parts : List Text → List Text
unfolding add_values
masked_parts values = sort (λ (a b : Text). ltb (length b) (length a)) (add_values [] values)

unfoldable pub first_match : List Text → Text → Option Text
unfolding has_prefix
first_match [] s = none
first_match (p ∷ parts) s = if has_prefix p s then some p else first_match parts s

-- The text from a byte on, of which the first `skip` bytes are replaced already.
unfoldable pub replace_after : List Text → ℕ → Text → Text
unfolding first_match
replace_after parts skip [] = []
replace_after parts (suc skip) (c ∷ s) = replace_after parts skip s
replace_after parts zero (c ∷ s) = elim (first_match parts (c ∷ s)) [
  | none ↦ c ∷ replace_after parts zero s
  | some p ↦ stars ++ replace_after parts (length p - 1) s
]

-- `m.r.Replace(s)`
abbrev pub replace : List Text → Text → Text
replace parts s = replace_after parts 0 s

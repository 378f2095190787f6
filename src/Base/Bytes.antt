-- ===== src/Base/Bytes.antt =====
-- Go strings and byte slices: a string is its list of bytes. The tests that the program's regular
-- expressions make on ASCII text are written out as tests on bytes.
use Prim.Native.Char.{code}
use Prim.Native.String.{String}
use Prim.Native.Nat.{ℕ, ◌-◌}
use mathlib.Core.Path.{◌≡◌, refl}
use mathlib.Core.Logic.{◌↔◌}
use mathlib.Core.Bool.{Bool, true, false, ◌&&◌, ◌||◌}
use mathlib.Core.Option.{Option, none, some}
use mathlib.Core.List.{List, [], ◌∷◌}
use native.Mathlib.Omega.{arith}
use esec_vault.Base.Tests.{leb, ltb, ◌==◌, if◌then◌else◌, is_some}
use esec_vault.Base.Lists.{length, all, drop}

abbrev pub Text : Type 0
Text = List ℕ

-- The bytes of an ASCII literal.
abbrev pub codes : String → Text
codes String.[] = []
codes (String.◌∷◌ c s) = code c ∷ codes s

unfoldable pub text_eq : Text → Text → Bool
text_eq [] [] = true
text_eq (a ∷ x) (b ∷ y) = (a == b) && text_eq x y
text_eq _ _ = false

pub text_eq_iff : (a b : Text) → (text_eq a b ≡ true) ↔ (a ≡ b)
unfolding text_eq
text_eq_iff [] [] = (λ _. refl, λ _. refl)
text_eq_iff [] (b ∷ y) = (λ h. cc, λ h. cc)
text_eq_iff (a ∷ x) [] = (λ h. cc, λ h. cc)
text_eq_iff (a ∷ x) (b ∷ y) =
    (λ h. ground (arith, (text_eq_iff x y).0), λ h. ground (arith, (text_eq_iff x y).1))

pub text_eq_refl : (a : Text) → text_eq a a ≡ true
text_eq_refl a = (text_eq_iff a a).1 refl

-- Go's `<` on strings: by bytes.
unfoldable pub text_lt : Text → Text → Bool
text_lt [] [] = false
text_lt [] (b ∷ y) = true
text_lt (a ∷ x) [] = false
text_lt (a ∷ x) (b ∷ y) = ltb a b || (a == b) && text_lt x y

pub text_lt_irrefl : (a : Text) → text_lt a a ≡ false
unfolding text_lt
text_lt_irrefl [] = refl
text_lt_irrefl (a ∷ x) = ground (arith, text_lt_irrefl x)

pub text_lt_trans : (a b c : Text) → text_lt a b ≡ true → text_lt b c ≡ true → text_lt a c ≡ true
unfolding text_lt
text_lt_trans [] [] c h k = cc
text_lt_trans [] (b ∷ y) [] h k = cc
text_lt_trans [] (b ∷ y) (c ∷ z) h k = refl
text_lt_trans (a ∷ x) [] c h k = cc
text_lt_trans (a ∷ x) (b ∷ y) [] h k = cc
text_lt_trans (a ∷ x) (b ∷ y) (c ∷ z) h k = ground (arith, text_lt_trans x y z)

pub text_lt_total : (a b : Text) → text_lt a b ≡ false → text_lt b a ≡ false → a ≡ b
unfolding text_lt
text_lt_total [] [] h k = refl
text_lt_total [] (b ∷ y) h k = cc
text_lt_total (a ∷ x) [] h k = cc
text_lt_total (a ∷ x) (b ∷ y) h k = ground (arith, text_lt_total x y)

-- `strings.CutPrefix`: what follows the prefix
unfoldable pub cut_prefix : Text → Text → Option Text
cut_prefix [] s = some s
cut_prefix (p ∷ ps) [] = none
cut_prefix (p ∷ ps) (c ∷ s) = let rest = cut_prefix ps s in if p == c then rest else none

abbrev pub in_range : ℕ → ℕ → ℕ → Bool
in_range lo hi c = leb lo c && leb c hi

abbrev pub is_digit : ℕ → Bool
is_digit = in_range b'0' b'9'

abbrev pub is_lower : ℕ → Bool
is_lower = in_range b'a' b'z'

abbrev pub is_upper : ℕ → Bool
is_upper = in_range b'A' b'Z'

abbrev pub is_lower_alnum : ℕ → Bool
is_lower_alnum c = is_lower c || is_digit c

abbrev pub is_alnum : ℕ → Bool
is_alnum c = is_lower c || is_upper c || is_digit c

-- `^prefix[class]{lo,hi}$`
unfoldable pub matches : Text → (ℕ → Bool) → ℕ → ℕ → Text → Bool
matches prefix class lo hi s = elim (cut_prefix prefix s) [
  | none ↦ false
  | some rest ↦ all class rest && leb lo (length rest) && leb (length rest) hi
]

-- `^[first][class]{0,hi}$`
unfoldable pub starts_class : (ℕ → Bool) → (ℕ → Bool) → ℕ → Text → Bool
starts_class first class hi [] = false
starts_class first class hi (c ∷ s) = first c && all class s && leb (length s) hi

-- `strings.HasPrefix`
unfoldable pub has_prefix : Text → Text → Bool
unfolding cut_prefix
has_prefix p s = is_some (cut_prefix p s)

-- `strings.HasSuffix`
unfoldable pub has_suffix : Text → Text → Bool
unfolding text_eq
has_suffix p s = leb (length p) (length s) && text_eq (drop (length s - length p) s) p

-- `strings.Contains`
unfoldable pub contains : Text → Text → Bool
unfolding has_prefix
contains p [] = text_eq p []
contains p (c ∷ s) = has_prefix p (c ∷ s) || contains p s

-- ===== src/Mask/Hidden.antt =====
-- About the texts that the replacer of internal/runcmd/mask.go masks.
use esec_vault.Base.{
  ap, codes, ℕ, zero, suc, ◌-◌, ◌<◌, Bool, true, false, ◌&&◌, not, none, some, inl, inr, List, [],
  ◌∷◌, ◌++◌, Text, length, all, has_prefix, contains, cut_prefix, text_eq, text_eq_iff, ◌==◌,
  Bool-cases, Option-cases, ◌≡◌, refl, ◌∙◌, sym, arith,
}
use esec_vault.Mask.Replacer.{stars, seen, first_match, replace_after}

abbrev pub no_star : Text → Bool
no_star = all (λ (c : ℕ). not (c == b'*'))

first_match-none :
    (parts : List Text) (p s : Text)
    → seen p parts ≡ true
    → first_match parts s ≡ none
    → has_prefix p s ≡ false
unfolding first_match
first_match-none [] p s h m = absurd (cc)
first_match-none (q ∷ parts) p s h m = elim (Bool-cases (text_eq p q)) [
  | inl same ↦ ground (arith, (text_eq_iff p q).0 same)
  | inr other ↦ ground (arith, first_match-none parts p s)
]

-- a text that starts with a star starts with no text without one
has_prefix-stars :
    (a : ℕ) (q out : Text) → no_star (a ∷ q) ≡ true → has_prefix (a ∷ q) (b'*' ∷ out) ≡ false
unfolding has_prefix cut_prefix
has_prefix-stars a q out free = ground arith

contains-star :
    (a : ℕ) (p out : Text)
    → no_star (a ∷ p) ≡ true
    → contains (a ∷ p) out ≡ false
    → contains (a ∷ p) (b'*' ∷ out) ≡ false
unfolding contains
contains-star a p out free h = ground (arith, has_prefix-stars a p out free)

pub replace_after-nil : (parts : List Text) (skip : ℕ) → replace_after parts skip [] ≡ []
unfolding replace_after
replace_after-nil parts skip = refl

pub replace_after-none :
    (parts : List Text) (c : ℕ) (s : Text)
    → first_match parts (c ∷ s) ≡ none
    → replace_after parts 0 (c ∷ s) ≡ c ∷ replace_after parts 0 s
unfolding replace_after
replace_after-none parts c s here = rw (replace_after, here)

pub replace_after-some :
    (parts : List Text) (c : ℕ) (s p : Text)
    → first_match parts (c ∷ s) ≡ some p
    → replace_after parts 0 (c ∷ s) ≡ stars ++ replace_after parts (length p - 1) s
unfolding replace_after
replace_after-some parts c s p here = rw (replace_after, here)

has_prefix-cons : (a c : ℕ) (q s : Text) → has_prefix (a ∷ q) (c ∷ s) ≡ (a == c) && has_prefix q s
unfolding has_prefix cut_prefix
has_prefix-cons a c q s = ground arith

-- where nothing is replaced, the output has the bytes of the text
has_prefix-replace_after :
    (parts : List Text) (q s : Text)
    → no_star q ≡ true
    → has_prefix q (replace_after parts 0 s) ≡ true
    → has_prefix q s ≡ true
unfolding has_prefix cut_prefix
has_prefix-replace_after parts [] s free h = refl
has_prefix-replace_after parts (a ∷ q) [] free h =
    sym (ap (has_prefix (a ∷ q)) (replace_after-nil parts 0)) ∙ h
has_prefix-replace_after parts (a ∷ q) (c ∷ s) free h =
    elim (Option-cases (first_match parts (c ∷ s))) [
      | inl here ↦
          let kept : has_prefix (a ∷ q) (c ∷ replace_after parts 0 s) ≡ true =
            rw (replace_after-none parts c s here) at h in
          let both = sym (has_prefix-cons a c q (replace_after parts 0 s)) ∙ kept in
          ground (arith, both, has_prefix-cons a c q s, has_prefix-replace_after parts q s)
      | inr (p, here) ↦
          let starred : has_prefix (a ∷ q) (stars ++ replace_after parts (length p - 1) s) ≡ true =
            rw (replace_after-some parts c s p here) at h in
          ground (
            arith,
            starred,
            has_prefix-stars a q (codes "**" ++ replace_after parts (length p - 1) s) free,
          )
    ]

contains-nil : (a : ℕ) (p : Text) → contains (a ∷ p) [] ≡ false
unfolding contains text_eq
contains-nil a p = refl

pub contains-replace_after :
    (parts : List Text) (p s : Text) (skip : ℕ)
    → seen p parts ≡ true
    → no_star p ≡ true
    → 0 < length p
    → contains p (replace_after parts skip s) ≡ false
unfolding replace_after contains
contains-replace_after parts [] s skip h free some_byte = absurd (omega arith)
contains-replace_after parts (a ∷ p) [] skip h free some_byte =
    ap (contains (a ∷ p)) (replace_after-nil parts skip) ∙ contains-nil a p
contains-replace_after parts (a ∷ p) (c ∷ s) (suc skip) h free some_byte =
    contains-replace_after parts (a ∷ p) s skip h free some_byte
contains-replace_after parts (a ∷ p) (c ∷ s) zero h free some_byte =
    elim (Option-cases (first_match parts (c ∷ s))) [
      | inl here ↦
          ap (contains (a ∷ p)) (replace_after-none parts c s here)
          ∙ ground (
            arith,
            has_prefix-cons a c p s,
            has_prefix-cons a c p (replace_after parts 0 s),
            first_match-none parts (a ∷ p) (c ∷ s) h here,
            has_prefix-replace_after parts p s,
            contains-replace_after parts (a ∷ p) s 0 h free some_byte,
          )
      | inr (q, here) ↦
          let rest = replace_after parts (length q - 1) s in
          ap (contains (a ∷ p)) (replace_after-some parts c s q here)
          ∙ contains-star a p (codes "**" ++ rest) free (
              contains-star a p (codes "*" ++ rest) free (
                contains-star a p rest free
                  (contains-replace_after parts (a ∷ p) s (length q - 1) h free some_byte)))
    ]

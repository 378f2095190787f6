-- ===== src/Mask/Drained.antt =====
-- About one write of internal/runcmd/mask.go above a writer that never fails.
use mathlib.Core.Path.{subst}
use esec_vault.Base.{
  ==_iff, ℕ, zero, suc, ◌-◌, ◌<◌, true, false, Option, none, some, inl, inr, List, [], ◌∷◌, ◌++◌,
  Text, length, all, has_prefix, cut_prefix, ◌==◌, Bool-cases, Option-cases, ◌≡◌, refl, sym, ◌∙◌,
  ap, arith,
}
use esec_vault.Mask.Replacer.{stars, newline, first_match, replace_after}
use esec_vault.Mask.Writer.{longer, cut_line}
use esec_vault.Mask.Lines.{no_newline, is_part}
use esec_vault.Mask.Hidden.{replace_after-none, replace_after-some}

-- `line` is what `cut_line` takes off the buffer, and `rest` what it leaves.
pub data Cuts : Text → Text → Text → Type 0 where
  here : {s : Text} → Cuts (newline ∷ s) (newline ∷ []) s
  later :
      {c : ℕ} {s line rest : Text}
      → (c == newline) ≡ false
      → Cuts s line rest
      → Cuts (c ∷ s) (c ∷ line) rest

abbrev pub IsCut : Text → Option (Text × Text) → Type 0
IsCut b none = no_newline b ≡ true
IsCut b (some (line, rest)) = Cuts b line rest

longer-IsCut :
    (c : ℕ) (s : Text) (o : Option (Text × Text))
    → (c == newline) ≡ false
    → IsCut s o
    → IsCut (c ∷ s) (longer c o)
longer-IsCut c s none other h = ground arith
longer-IsCut c s (some (line, rest)) other h = later other h

cut_line-longer :
    (c : ℕ) (s : Text) → (c == newline) ≡ false → cut_line (c ∷ s) ≡ longer c (cut_line s)
unfolding cut_line
cut_line-longer c s other = ground (arith, other)

pub cut_line-IsCut : (b : Text) → IsCut b (cut_line b)
unfolding cut_line
cut_line-IsCut [] = refl
cut_line-IsCut (c ∷ s) = elim (Bool-cases (c == newline)) [
  | inl same ↦
      subst (λ (d : ℕ). IsCut (d ∷ s) (cut_line (d ∷ s))) (sym ((==_iff c newline).0 same)) here
  | inr other ↦
      subst (IsCut (c ∷ s)) (sym (cut_line-longer c s other))
        (longer-IsCut c s (cut_line s) other (cut_line-IsCut s))
]

-- a text without a newline starts a buffer when it starts its first line
has_prefix-Cuts :
    (p b line rest more : Text)
    → no_newline p ≡ true
    → Cuts b line rest
    → has_prefix p (b ++ more) ≡ has_prefix p line
unfolding has_prefix cut_prefix
has_prefix-Cuts [] b line rest more h cut = refl
has_prefix-Cuts (a ∷ p) b line rest more h here = ground arith
has_prefix-Cuts (a ∷ p) b line rest more h (later {c} {s} {line = l} {rest = r} other cut) =
    ground (arith, has_prefix-Cuts p s l r more)

-- and it is no longer than that line without its newline
length-Cuts :
    (p b line rest : Text)
    → no_newline p ≡ true
    → Cuts b line rest
    → has_prefix p line ≡ true
    → length p < length line
unfolding has_prefix cut_prefix
length-Cuts [] b line rest h here starts = omega arith
length-Cuts [] b line rest h (later other cut) starts = omega arith
length-Cuts (a ∷ p) b line rest h here starts = ground arith
length-Cuts (a ∷ p) b line rest h (later {c} {s} {line = l} {rest = r} other cut) starts =
    ground (arith, length-Cuts p s l r)

first_match-Cuts :
    (parts : List Text) (b line rest more : Text)
    → all is_part parts ≡ true
    → Cuts b line rest
    → first_match parts (b ++ more) ≡ first_match parts line
unfolding first_match
first_match-Cuts [] b line rest more h cut = refl
first_match-Cuts (p ∷ parts) b line rest more h cut = ground (
  arith,
  has_prefix-Cuts p b line rest more (ground arith) cut,
  first_match-Cuts parts b line rest more (ground arith) cut,
)

first_match-length :
    (parts : List Text) (b line rest p : Text)
    → all is_part parts ≡ true
    → Cuts b line rest
    → first_match parts line ≡ some p
    → (0 < length p) × (length p < length line)
unfolding first_match
first_match-length [] b line rest p h cut m = absurd (cc)
first_match-length (q ∷ parts) b line rest p h cut m = elim (Bool-cases (has_prefix q line)) [
  | inl starts ↦
      let at_p : q ≡ p = ground arith in
      let short : length q < length line = length-Cuts q b line rest (ground arith) cut starts in
      let byte : 0 < length q = ground arith in
      (omega (arith, ap length at_p), omega (arith, ap length at_p))
  | inr other ↦ first_match-length parts b line rest p (ground arith) cut (ground arith)
]

first_match-newline :
    (parts : List Text) (s : Text)
    → all is_part parts ≡ true
    → first_match parts (newline ∷ s) ≡ none
unfolding first_match has_prefix cut_prefix
first_match-newline [] s h = refl
first_match-newline ([] ∷ parts) s h = ground arith
first_match-newline ((a ∷ p) ∷ parts) s h = ground (arith, first_match-newline parts s)

-- what the replacer makes of a buffer is what it makes of its first line, then of the rest
pub replace_after-Cuts :
    (parts : List Text) (b line rest more : Text) (skip : ℕ)
    → all is_part parts ≡ true
    → Cuts b line rest
    → skip < length line
    → replace_after parts skip (b ++ more)
      ≡ replace_after parts skip line ++ replace_after parts 0 (rest ++ more)
unfolding replace_after
replace_after-Cuts parts b line rest more (suc skip) h here k = absurd (omega arith)
replace_after-Cuts parts b line rest more zero h here k =
    let after = replace_after parts 0 (rest ++ more) in
    replace_after-none parts newline (rest ++ more) (first_match-newline parts (rest ++ more) h)
    ∙ sym (
        ap (λ (out : Text). out ++ after)
          (replace_after-none parts newline [] (first_match-newline parts [] h)))
replace_after-Cuts parts b line rest more (suc skip) h
      (later {c} {s} {line = l} {rest = r} other cut) k =
    replace_after-Cuts parts s l r more skip h cut (omega arith)
replace_after-Cuts parts b line rest more zero h (later {c} {s} {line = l} {rest = r} other cut) k =
    let after = replace_after parts 0 (r ++ more) in
    let same = first_match-Cuts parts (c ∷ s) (c ∷ l) r more h (later other cut) in
    elim (Option-cases (first_match parts (c ∷ l))) [
      | inl nothing ↦
          replace_after-none parts c (s ++ more) (same ∙ nothing)
          ∙ ap (λ (out : Text). c ∷ out)
              (replace_after-Cuts parts s l r more 0 h cut (length-Cuts [] s l r refl cut refl))
          ∙ sym (ap (λ (out : Text). out ++ after) (replace_after-none parts c l nothing))
      | inr (p, match) ↦
          let bounds = first_match-length parts (c ∷ s) (c ∷ l) r p h (later other cut) match in
          replace_after-some parts c (s ++ more) p (same ∙ match)
          ∙ ap (λ (out : Text). stars ++ out)
              (replace_after-Cuts parts s l r more (length p - 1) h cut
                (omega (arith, bounds.0, bounds.1)))
          ∙ sym (ap (λ (out : Text). out ++ after) (replace_after-some parts c l p match))
    ]

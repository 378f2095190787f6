-- ===== src/Mask/Fits.antt =====
-- About outputs whose lines fit the buffer of internal/runcmd/mask.go.
use esec_vault.Base.{
  ℕ, suc, ◌+◌, ◌≤◌, ◌<◌, Bool, true, ◌&&◌, [], ◌∷◌, ◌++◌, Text, length, ltb, ◌==◌, if◌then◌else◌,
  ◌≡◌, refl, arith,
}
use esec_vault.Mask.Replacer.{newline}
use esec_vault.Mask.Writer.{max_buffered}
use esec_vault.Mask.Lines.{no_newline}
use esec_vault.Mask.Drained.{Cuts, here, later}

-- Every line has at most max_buffered bytes before its newline; `used` bytes of the first are
-- there already.
abbrev pub fits : ℕ → Text → Bool
fits used [] = true
fits used (c ∷ s) = if c == newline then fits 0 s else ltb used max_buffered && fits (suc used) s

pub fits-Cuts :
    (b line rest more : Text) (used : ℕ)
    → Cuts b line rest
    → fits used (b ++ more) ≡ true
    → fits 0 (rest ++ more) ≡ true
fits-Cuts b line rest more used here h = h
fits-Cuts b line rest more used (later {c} {s} {line = l} {rest = r} other cut) h =
    fits-Cuts s l r more (suc used) cut (ground (arith, h, other))

pub fits-prefix : (a b : Text) (used : ℕ) → fits used (a ++ b) ≡ true → fits used a ≡ true
fits-prefix [] b used f = refl
fits-prefix (c ∷ a) b used f = ground (arith, fits-prefix a b 0, fits-prefix a b (suc used))

pub fits-length :
    (b more : Text) (used : ℕ)
    → used ≤ max_buffered
    → no_newline b ≡ true
    → fits used (b ++ more) ≡ true
    → used + length b ≤ max_buffered
fits-length [] more used k h f = omega arith
fits-length (c ∷ b) more used k h f =
    let rest = fits-length b more (suc used) (ground arith) (ground arith) (ground arith) in
    omega (arith, rest)

pub length-Cuts_rest : (b line rest : Text) → Cuts b line rest → length rest < length b
length-Cuts_rest b line rest here = omega arith
length-Cuts_rest b line rest (later {c} {s} {line = l} {rest = r} other cut) =
    omega (arith, length-Cuts_rest s l r cut)

pub length-Cuts_line : (b line rest : Text) → Cuts b line rest → 0 < length line
length-Cuts_line b line rest here = omega arith
length-Cuts_line b line rest (later other cut) = omega arith

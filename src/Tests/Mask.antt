-- ===== src/Tests/Mask.antt =====
-- Masked output on small inputs.
use esec_vault.Base.{
  sort, text_eq, Option, none, List, [], ◌∷◌, ◌++◌, Text, codes, contains, ◌≡◌, refl, false, Error,
}
use esec_vault.Mask.Replacer.{replace, replace_after, masked_parts}
use esec_vault.Mask.Writer.{new_masker, flush, write}
use esec_vault.Mask.Whole.{write_all, flush-replace, flush-hides}
use esec_vault.Mask.Settled.{wrote, paused, handle_all, IsSettled, new_masker-IsSettled}

abbrev sink : Text → Text → Text × Option Error
sink w t = (w ++ t, none)

abbrev secrets : List Text
secrets = codes "hunter22" ∷ []

-- "x hunter22" in two writes
abbrev pieces : List Text
pieces = codes "x hun" ∷ (codes "ter22\n" ∷ (codes "y" ∷ []))

flush-replace_example :
    (flush sink (write_all sink (new_masker sink [] secrets) pieces)).0.w
    ≡ replace (masked_parts secrets) (codes "x hunter22\ny")
flush-replace_example =
    flush-replace sink (λ w. w) (λ w t. refl) (λ w t. refl) [] secrets pieces refl

masked : (flush sink (write_all sink (new_masker sink [] secrets) pieces)).0.w ≡ codes "x ***\ny"
unfolding flush write masked_parts replace_after sort
masked = refl

flush-hides_example :
    contains
      (codes "hunter22")
      (flush sink (write_all sink (new_masker sink [] secrets) pieces)).0.w
    ≡ false
unfolding masked_parts text_eq
flush-hides_example =
    flush-hides sink (λ w. w) (λ w t. refl) (λ w t. refl) [] secrets pieces (codes "hunter22")
      (codes "hunter22") refl refl refl refl refl refl

new_masker-IsSettled_example :
    IsSettled secrets
      (handle_all sink (new_masker sink [] secrets) (wrote (codes "x hun") ∷ (paused ∷ [])))
new_masker-IsSettled_example =
    new_masker-IsSettled sink (λ w. w) (λ w t. refl) (λ w t. refl) [] secrets
      (wrote (codes "x hun") ∷ (paused ∷ []))

abbrev overlapping : List Text
overlapping = codes "abcd" ∷ (codes "cdefgh" ∷ [])

-- A pause in which a value is complete and the start of another overlaps it: the cut for the second
-- goes through the first, which comes out as it is.
shown_after_pause :
    (handle_all sink
      (new_masker sink [] overlapping)
      (wrote (codes "abcde") ∷ (paused ∷ (wrote (codes "\n") ∷ [])))).w
    ≡ codes "abcde\n"
unfolding handle_all masked_parts replace_after sort text_eq
shown_after_pause = refl

masked_without_pause :
    (handle_all sink
      (new_masker sink [] overlapping)
      (wrote (codes "abcde") ∷ (wrote (codes "\n") ∷ []))).w
    ≡ codes "***e\n"
unfolding handle_all masked_parts replace_after sort text_eq
masked_without_pause = refl

-- ===== src/Mask/Whole.antt =====
-- About all that comes out of a masker of internal/runcmd/mask.go above a writer that never fails,
-- when each line fits the buffer and the timer of an unfinished line does not run out.
use mathlib.Core.Path.{subst}
use mathlib.Core.List.{append-nil, append_assoc}
use esec_vault.Base.{
  ℕ, zero, suc, ◌≤◌, Bool, true, false, Option, none, some, inl, inr, List, [], ◌∷◌, ◌++◌, Text,
  length, all, contains, ltb, if◌then◌else◌, Option-cases, ◌≡◌, refl, sym, ◌∙◌, ap, arith, Error,
  leb,
}
use esec_vault.Mask.Replacer.{replace, masked_parts, seen, split_lines, trim_right, min_masked}
use esec_vault.Mask.Writer.{
  max_buffered, Masker, new_masker, cut_line, write_lines, write_partial, write, flush, after_lines,
  restart,
}
use esec_vault.Mask.Lines.{no_newline, is_part, masked_parts-is_part, masked_parts-seen}
use esec_vault.Mask.Hidden.{no_star, contains-replace_after, replace_after-nil}
use esec_vault.Mask.Drained.{Cuts, IsCut, cut_line-IsCut, replace_after-Cuts}
use esec_vault.Mask.Fits.{
  fits, fits-Cuts, fits-prefix, fits-length, length-Cuts_rest, length-Cuts_line,
}

-- the writes of a command's output, each after the one before
module _ {W : Type 0} (write_string : W → Text → W × Option Error) where
  abbrev pub write_all : Masker W → List Text → Masker W
  write_all m [] = m
  write_all m (p ∷ ps) = write_all (write write_string m p).0 ps

abbrev pub whole : List Text → Text
whole [] = []
whole (p ∷ ps) = p ++ whole ps

-- The writer below never fails, and `written` is what it has been given.
module _ {W : Type 0} (write_string : W → Text → W × Option Error) (written : W → Text)
    (never_fails : (w : W) (t : Text) → (write_string w t).1 ≡ none)
    (appends : (w : W) (t : Text) → written (write_string w t).0 ≡ written w ++ t) where
  -- what comes out once `more` has come in, if each line fits
  abbrev promised : Masker W → Text → Text
  promised m more = written m.w ++ replace m.parts (m.buf ++ more)

  pub record Drains (m : Masker W) (r : Masker W × Option Error) : Type 0 where
    pub no_error : r.1 ≡ none
    pub one_line : no_newline (r.0).buf ≡ true
    pub parts : (r.0).parts ≡ m.parts
    pub promise : (more : Text) → promised r.0 more ≡ promised m more
    pub fit : (more : Text) → fits 0 (m.buf ++ more) ≡ true → fits 0 ((r.0).buf ++ more) ≡ true

  write_lines-none :
      (fuel : ℕ) (m : Masker W)
      → cut_line m.buf ≡ none
      → write_lines write_string (suc fuel) m ≡ (m, none)
  unfolding write_lines
  write_lines-none fuel m cut = rw (write_lines, cut)

  write_lines-some :
      (fuel : ℕ) (m : Masker W) (line rest : Text)
      → cut_line m.buf ≡ some (line, rest)
      → write_lines write_string (suc fuel) m
        ≡ write_lines write_string fuel
            (record m { buf = rest; w = (write_string m.w (replace m.parts line)).0 })
  unfolding write_lines
  write_lines-some fuel m line rest cut =
      rw (write_lines, cut, never_fails m.w (replace m.parts line))

  Drains-refl : (m : Masker W) → no_newline m.buf ≡ true → Drains m (m, none)
  Drains-refl m h = record {
    no_error = refl;
    one_line = h;
    parts = refl;
    promise = λ more. refl;
    fit = λ more h. h;
  }

  -- one line taken off the buffer and written
  promised-line :
      (m : Masker W) (line rest more : Text)
      → all is_part m.parts ≡ true
      → Cuts m.buf line rest
      → promised (record m { buf = rest; w = (write_string m.w (replace m.parts line)).0 }) more
        ≡ promised m more
  promised-line m line rest more h cut =
      let after = replace m.parts (rest ++ more) in
      ap (λ (out : Text). out ++ after) (appends m.w (replace m.parts line))
      ∙ append_assoc (written m.w) (replace m.parts line) after
      ∙ sym (
          ap (λ (out : Text). written m.w ++ out)
            (replace_after-Cuts m.parts m.buf line rest more 0 h cut
              (length-Cuts_line m.buf line rest cut)))

  no_newline-empty : (b : Text) → length b ≤ 0 → no_newline b ≡ true
  no_newline-empty [] h = refl
  no_newline-empty (c ∷ b) h = absurd (omega arith)

  pub write_lines-Drains :
      (fuel : ℕ) (m : Masker W)
      → length m.buf ≤ fuel
      → all is_part m.parts ≡ true
      → Drains m (write_lines write_string fuel m)
  unfolding write_lines
  write_lines-Drains zero m k h = Drains-refl m (no_newline-empty m.buf k)
  write_lines-Drains (suc fuel) m k h = elim (Option-cases (cut_line m.buf)) [
    | inl nothing ↦
        subst (Drains m) (sym (write_lines-none fuel m nothing))
          (Drains-refl m (subst (IsCut m.buf) nothing (cut_line-IsCut m.buf)))
    | inr ((line, rest), found) ↦
        let cut : Cuts m.buf line rest = subst (IsCut m.buf) found (cut_line-IsCut m.buf) in
        let next : Masker W = record m {
          buf = rest;
          w = (write_string m.w (replace m.parts line)).0;
        } in
        let shorter = length-Cuts_rest m.buf line rest cut in
        let later_on = write_lines-Drains fuel next (omega (arith, shorter)) h in
        subst (Drains m) (sym (write_lines-some fuel m line rest found)) (record {
          no_error = later_on.no_error;
          one_line = later_on.one_line;
          parts = later_on.parts;
          promise = λ more. later_on.promise more ∙ promised-line m line rest more h cut;
          fit = λ more f. later_on.fit more (fits-Cuts m.buf line rest more 0 cut f);
        })
  ]

  after_lines-quiet :
      (m : Masker W)
      → length m.buf ≤ max_buffered
      → after_lines write_string (m, none) ≡ (record m { timer = ltb 0 (length m.buf) }, m.error)
  after_lines-quiet m k =
      let short : ltb max_buffered (length m.buf) ≡ false = ground (arith, k) in
      ap
        (λ (over : Bool).
          restart write_string (if over then write_partial write_string m else (m, none)))
        short

  record Keeps (m : Masker W) (p : Text) (r : Masker W) : Type 0 where
    parts : r.parts ≡ m.parts
    promise : (more : Text) → promised r more ≡ promised m (p ++ more)
    fit : (more : Text) → fits 0 (m.buf ++ (p ++ more)) ≡ true → fits 0 (r.buf ++ more) ≡ true

  write-Keeps :
      (m : Masker W) (p : Text)
      → all is_part m.parts ≡ true
      → fits 0 (m.buf ++ p) ≡ true
      → Keeps m p (write write_string m p).0
  unfolding write
  write-Keeps m p h f =
      let held : Masker W = record m { timer = false; buf = m.buf ++ p } in
      let r = write_lines write_string (length held.buf) held in
      let d : Drains held r = write_lines-Drains (length held.buf) held (omega arith) h in
      let line_fits : fits 0 ((r.0).buf ++ []) ≡ true =
        d.fit [] (subst (λ (t : Text). fits 0 t ≡ true) (sym (append-nil (m.buf ++ p))) f) in
      let short = fits-length (r.0).buf [] 0 (omega arith) d.one_line line_fits in
      let done : after_lines write_string r
          ≡ (record (r.0) { timer = ltb 0 (length (r.0).buf) }, (r.0).error) =
        ap (λ (e : Option Error). after_lines write_string (r.0, e)) d.no_error
        ∙ after_lines-quiet r.0 (omega (arith, short)) in
      subst (Keeps m p) (sym (ap (λ (out : Masker W × Option Error). out.0) done)) (record {
        parts = d.parts;
        promise = λ more.
            d.promise more
            ∙ ap (λ (t : Text). written m.w ++ replace m.parts t) (append_assoc m.buf p more);
        fit = λ more g.
            d.fit more (subst (λ (t : Text). fits 0 t ≡ true) (sym (append_assoc m.buf p more)) g);
      })

  flush-promised :
      (m : Masker W) (b : Text)
      → m.buf ≡ b
      → written (flush write_string m).0.w ≡ written m.w ++ replace m.parts b
  unfolding flush
  flush-promised m [] empty =
      rw (flush, empty)
        (sym (append-nil (written m.w))
          ∙ ap (λ (t : Text). written m.w ++ t) (sym (replace_after-nil m.parts 0)))
  flush-promised m (c ∷ b) held =
      rw (flush, held)
        (appends m.w (replace m.parts m.buf)
          ∙ ap (λ (t : Text). written m.w ++ replace m.parts t) held)

  flush-write_all :
      (m : Masker W) (ps : List Text)
      → all is_part m.parts ≡ true
      → fits 0 (m.buf ++ whole ps) ≡ true
      → written (flush write_string (write_all write_string m ps)).0.w ≡ promised m (whole ps)
  flush-write_all m [] h f =
      flush-promised m m.buf refl
      ∙ ap (λ (t : Text). written m.w ++ replace m.parts t) (sym (append-nil m.buf))
  flush-write_all m (p ∷ ps) h f =
      let next = (write write_string m p).0 in
      let k = write-Keeps m p h (
        fits-prefix (m.buf ++ p) (whole ps) 0
          (subst (λ (t : Text). fits 0 t ≡ true) (sym (append_assoc m.buf p (whole ps))) f)) in
      flush-write_all next ps
        (subst (λ (parts : List Text). all is_part parts ≡ true) (sym k.parts) h)
        (k.fit (whole ps) f)
      ∙ k.promise (whole ps)

  -- When no line is longer than max_buffered, the writer below never fails and no pause writes an
  -- unfinished line out, what comes out of a new masker, once it is flushed, is the whole text as
  -- the replacer masks it at once, however the writes split it.
  pub flush-replace :
      (w : W) (values ps : List Text)
      → fits 0 (whole ps) ≡ true
      → written
          (flush write_string (write_all write_string (new_masker write_string w values) ps)).0.w
        ≡ written w ++ replace (masked_parts values) (whole ps)
  flush-replace w values ps f =
      flush-write_all (new_masker write_string w values) ps (masked_parts-is_part values) f

  -- When no line is longer than max_buffered, the writer below never fails and no pause writes an
  -- unfinished line out, no line of a value shows in what comes out of a new masker once it is
  -- flushed, if it has at least min_masked bytes, less carriage returns at its end, and no star:
  -- not even across writes.
  pub flush-hides :
      (w : W) (values ps : List Text) (v line : Text)
      → written w ≡ []
      → fits 0 (whole ps) ≡ true
      → seen v values ≡ true
      → seen line (split_lines v) ≡ true
      → leb min_masked (length (trim_right line)) ≡ true
      → no_star (trim_right line) ≡ true
      → contains (trim_right line) (
          written
            (flush write_string (write_all write_string (new_masker write_string w values) ps)).0.w)
        ≡ false
  flush-hides w values ps v line fresh f in_values in_lines long free =
      ap (contains (trim_right line)) (
        flush-replace w values ps f
        ∙ ap (λ (out : Text). out ++ replace (masked_parts values) (whole ps)) fresh)
      ∙ contains-replace_after (masked_parts values) (trim_right line) (whole ps) 0
          (masked_parts-seen v line values in_values in_lines long) free (ground (arith, long))

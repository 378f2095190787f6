-- ===== src/Mask/Settled.antt =====
-- About the buffer of internal/runcmd/mask.go, above a writer that never fails.
use mathlib.Core.Path.{subst}
use esec_vault.Base.{
  ◌||◌, ℕ, zero, suc, ◌-◌, ◌≤◌, Bool, true, false, Option, none, some, List, [], ◌∷◌, ◌++◌, Text,
  length, drop, all, ltb, leb, if◌then◌else◌, Bool-cases, inl, inr, ◌≡◌, refl, sym, ◌∙◌, arith,
  Error,
}
use esec_vault.Mask.Replacer.{masked_parts}
use esec_vault.Mask.Writer.{
  max_buffered, Masker, new_masker, longest, held_from, held_back, write_partial, write_lines,
  write, flush, idle, after_lines, limit, restart,
}
use esec_vault.Mask.Lines.{no_newline, is_part, masked_parts-is_part}
use esec_vault.Mask.Whole.{write_lines-Drains}

-- a write, a pause in which the timer of an unfinished line runs out, or a flush
pub data Event : Type 0 where
  wrote : Text → Event
  paused : Event
  flushed : Event

module _ {W : Type 0} (write_string : W → Text → W × Option Error) where
  unfoldable pub handle : Masker W → Event → Masker W
  unfolding write flush idle
  handle m (wrote p) = (write write_string m p).0
  handle m paused = idle write_string m
  handle m flushed = (flush write_string m).0

  unfoldable pub handle_all : Masker W → List Event → Masker W
  unfolding handle
  handle_all m [] = m
  handle_all m (e ∷ es) = handle_all (handle m e) es

held_from-le : (k : ℕ) (parts : List Text) (b : Text) → held_from k parts b ≤ k
unfolding held_from
held_from-le zero parts b = omega arith
held_from-le (suc k) parts b = ground (arith, held_from-le k parts b)

held_back-le :
    (parts : List Text) (b : Text)
    → (held_back parts b ≤ length b) × (held_back parts b ≤ longest parts)
unfolding held_back
held_back-le parts b =
    let k = if ltb (length b) (longest parts) then length b else longest parts in
    (ground (arith, held_from-le k parts b), ground (arith, held_from-le k parts b))

length-drop : (n : ℕ) (b : Text) → length (drop n b) ≡ length b - n
length-drop zero b = omega arith
length-drop (suc n) [] = omega arith
length-drop (suc n) (c ∷ b) = omega (arith, length-drop n b)

drop-no_newline : (n : ℕ) (b : Text) → no_newline b ≡ true → no_newline (drop n b) ≡ true
drop-no_newline zero b h = h
drop-no_newline (suc n) [] h = h
drop-no_newline (suc n) (c ∷ b) h = drop-no_newline n b (ground arith)

-- No complete line waits, and no more of an unfinished one than max_buffered or the longest value.
pub record IsSettled {W : Type 0} (values : List Text) (m : Masker W) : Type 0 where
  pub parts : m.parts ≡ masked_parts values
  pub one_line : no_newline m.buf ≡ true
  pub bounded : leb (length m.buf) max_buffered || leb (length m.buf) (longest m.parts) ≡ true

module _ {W : Type 0} (write_string : W → Text → W × Option Error) (values : List Text) where
  write_partial-IsSettled :
      (m : Masker W)
      → m.parts ≡ masked_parts values
      → no_newline m.buf ≡ true
      → IsSettled values (write_partial write_string m).0
  unfolding write_partial
  write_partial-IsSettled m p h =
      let cut = length m.buf - held_back m.parts m.buf in
      let held = held_back-le m.parts m.buf in
      let left : length (drop cut m.buf) ≤ longest m.parts =
        omega (arith, length-drop cut m.buf, held.0, held.1) in
      record { parts = p; one_line = drop-no_newline cut m.buf h; bounded = ground (arith, left) }

  limit-IsSettled :
      (m : Masker W)
      → m.parts ≡ masked_parts values
      → no_newline m.buf ≡ true
      → IsSettled values (limit write_string m).0
  limit-IsSettled m p h = elim (Bool-cases (ltb max_buffered (length m.buf))) [
    | inl over ↦
        subst
          (λ (b : Bool). IsSettled values (if b then write_partial write_string m else (m, none)).0)
          (sym over) (write_partial-IsSettled m p h)
    | inr within ↦
        subst
          (λ (b : Bool). IsSettled values (if b then write_partial write_string m else (m, none)).0)
          (sym within) (record { parts = p; one_line = h; bounded = ground (arith, within) })
  ]

  restart-IsSettled :
      (r : Masker W × Option Error)
      → IsSettled values r.0
      → IsSettled values (restart write_string r).0
  restart-IsSettled (m, none) h = record {
    parts = h.parts;
    one_line = h.one_line;
    bounded = h.bounded;
  }
  restart-IsSettled (m, some e) h = h

  -- with the buffer `b`
  flush-IsSettled :
      (m : Masker W) (b : Text)
      → m.buf ≡ b
      → IsSettled values m
      → IsSettled values (flush write_string m).0
  unfolding flush
  flush-IsSettled m [] empty h =
      rw (flush, empty) (record { parts = h.parts; one_line = h.one_line; bounded = h.bounded })
  flush-IsSettled m (c ∷ b) held h =
      rw (flush, held) (record { parts = h.parts; one_line = refl; bounded = ground arith })

  idle-IsSettled :
      (m : Masker W) (e : Option Error)
      → m.error ≡ e
      → IsSettled values m
      → IsSettled values (idle write_string m)
  unfolding idle
  idle-IsSettled m none fine h =
      let later = write_partial-IsSettled m h.parts h.one_line in
      rw (idle, fine)
        (record { parts = later.parts; one_line = later.one_line; bounded = later.bounded })
  idle-IsSettled m (some e) failed h = rw (idle, failed) h

-- The writer below never fails, and `written` is what it has been given.
module _ {W : Type 0} (write_string : W → Text → W × Option Error) (written : W → Text)
    (never_fails : (w : W) (t : Text) → (write_string w t).1 ≡ none)
    (appends : (w : W) (t : Text) → written (write_string w t).0 ≡ written w ++ t) where
  write-IsSettled :
      (values : List Text) (m : Masker W) (p : Text)
      → IsSettled values m
      → IsSettled values (write write_string m p).0
  unfolding write
  write-IsSettled values m p h =
      let held : Masker W = record m { timer = false; buf = m.buf ++ p } in
      let r = write_lines write_string (length held.buf) held in
      let of_parts : all is_part m.parts ≡ true =
        subst (λ (parts : List Text). all is_part parts ≡ true) (sym h.parts)
          (masked_parts-is_part values) in
      let d =
        write_lines-Drains write_string written never_fails appends (length held.buf) held
          (omega arith) of_parts in
      subst (λ (e : Option Error). IsSettled values (after_lines write_string (r.0, e)).0)
        (sym d.no_error)
        (restart-IsSettled write_string values (limit write_string r.0)
          (limit-IsSettled write_string values r.0 (d.parts ∙ h.parts) d.one_line))

  handle-IsSettled :
      (values : List Text) (m : Masker W) (e : Event)
      → IsSettled values m
      → IsSettled values (handle write_string m e)
  unfolding handle
  handle-IsSettled values m (wrote p) h = write-IsSettled values m p h
  handle-IsSettled values m paused h = idle-IsSettled write_string values m m.error refl h
  handle-IsSettled values m flushed h = flush-IsSettled write_string values m m.buf refl h

  handle_all-IsSettled :
      (values : List Text) (es : List Event) (m : Masker W)
      → IsSettled values m
      → IsSettled values (handle_all write_string m es)
  unfolding handle_all
  handle_all-IsSettled values [] m h = h
  handle_all-IsSettled values (e ∷ es) m h =
      handle_all-IsSettled values es (handle write_string m e) (handle-IsSettled values m e h)

  -- After any writes, pauses and flushes, above a writer that never fails, a masker holds back no
  -- complete line, and of an unfinished one no more bytes than max_buffered or the longest masked
  -- text: the loops over complete lines end with all of them written.
  pub new_masker-IsSettled :
      (w : W) (values : List Text) (es : List Event)
      → IsSettled values (handle_all write_string (new_masker write_string w values) es)
  new_masker-IsSettled w values es =
      handle_all-IsSettled values es (new_masker write_string w values)
        (record { parts = refl; one_line = refl; bounded = refl })

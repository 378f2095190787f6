-- ===== src/Mask/Writer.antt =====
-- internal/runcmd/mask.go: the buffer of the last line, and what is written when.
use esec_vault.Base.{
  ℕ, zero, suc, ◌-◌, ◌*◌, Bool, false, Option, none, some, List, [], ◌∷◌, ◌++◌, Text, length, take,
  drop, any, has_prefix, ltb, ◌==◌, if◌then◌else◌, Error,
}
use esec_vault.Mask.Replacer.{newline, masked_parts, replace}

abbrev pub max_buffered : ℕ
max_buffered = 64 * 1024

-- `w` is the state of the writer below; `timer` says whether the timer of an unfinished line runs.
pub record Masker (W : Type 0) : Type 0 where
  pub w : W
  pub parts : List Text
  pub buf : Text
  pub timer : Bool
  pub error : Option Error

abbrev pub longer : ℕ → Option (Text × Text) → Option (Text × Text)
longer c none = none
longer c (some (line, rest)) = some (c ∷ line, rest)

-- the line up to a newline, and what follows it
unfoldable pub cut_line : Text → Option (Text × Text)
cut_line [] = none
cut_line (c ∷ s) = let rest = cut_line s in if c == newline then some (c ∷ [], s) else longer c rest

unfoldable pub longest : List Text → ℕ
longest [] = 0
longest (p ∷ parts) = let n = longest parts in if ltb n (length p) then length p else n

-- the longest tail, of at most `k` bytes, that is the start of a value
unfoldable pub held_from : ℕ → List Text → Text → ℕ
unfolding has_prefix
held_from zero parts b = 0
held_from (suc k) parts b =
    let shorter = held_from k parts b in
    if any (λ (p : Text). has_prefix (drop (length b - suc k) b) p) parts then suc k else shorter

unfoldable pub held_back : List Text → Text → ℕ
unfolding longest held_from
held_back parts b =
    held_from (if ltb (length b) (longest parts) then length b else longest parts) parts b

-- `io.WriteString` to the writer below: its new state, and the error it reports.
module _ {W : Type 0} (write_string : W → Text → W × Option Error) where
  abbrev pub new_masker : W → List Text → Masker W
  new_masker w values = record {
    w = w;
    parts = masked_parts values;
    buf = [];
    timer = false;
    error = none;
  }

  unfoldable pub write_partial : Masker W → Masker W × Option Error
  unfolding held_back
  write_partial m =
      let cut = length m.buf - held_back m.parts m.buf in
      let sent = write_string m.w (replace m.parts (take cut m.buf)) in
      (record m { buf = drop cut m.buf; w = sent.0 }, sent.1)

  unfoldable pub write_lines : ℕ → Masker W → Masker W × Option Error
  unfolding cut_line
  write_lines zero m = (m, none)
  write_lines (suc fuel) m = elim (cut_line m.buf) [
    | none ↦ (m, none)
    | some (line, rest) ↦
        let sent = write_string m.w (replace m.parts line) in
        let next : Masker W = record m { buf = rest; w = sent.0 } in
        elim sent.1 [ some e ↦ (next, some e) | none ↦ write_lines fuel next ]
  ]

  abbrev pub limit : Masker W → Masker W × Option Error
  limit m = if ltb max_buffered (length m.buf) then write_partial m else (m, none)

  abbrev pub restart : Masker W × Option Error → Masker W × Option Error
  restart (m, some e) = (m, some e)
  restart (m, none) = (record m { timer = ltb 0 (length m.buf) }, m.error)

  abbrev pub after_lines : Masker W × Option Error → Masker W × Option Error
  after_lines (m, some e) = (m, some e)
  after_lines (m, none) = restart (limit m)

  unfoldable pub write : Masker W → Text → Masker W × Option Error
  unfolding write_lines write_partial
  write m p =
      let held : Masker W = record m { timer = false; buf = m.buf ++ p } in
      after_lines (write_lines (length held.buf) held)

  unfoldable pub flush : Masker W → Masker W × Option Error
  flush m = elim m.buf [
    | [] ↦ (record m { timer = false }, m.error)
    | _ ∷ _ ↦
        let sent = write_string m.w (replace m.parts m.buf) in
        (record m { timer = false; buf = []; w = sent.0 }, sent.1)
  ]

  unfoldable pub idle : Masker W → Masker W
  unfolding write_partial
  idle m = elim m.error [
    | some e ↦ m
    | none ↦ let done = write_partial m in record (done.0) { error = done.1 }
  ]

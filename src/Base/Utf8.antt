-- ===== src/Base/Utf8.antt =====
-- UTF-8, as Go's `range` over a string and its regular expressions read it.
use Prim.Native.Nat.{ℕ, ◌+◌, ◌-◌, ◌*◌}
use mathlib.Core.Option.{Option, none, some}
use mathlib.Core.List.{List, [], ◌∷◌}
use esec_vault.Base.Tests.{if◌then◌else◌, ltb, ◌==◌}
use esec_vault.Base.Bytes.{Text, in_range}

-- What the decoder waits for: how many bytes more, the value so far, and the range of the next
-- byte, which is narrower after some first bytes.
pub record Pending : Type 0 where
  pub more : ℕ
  pub value : ℕ
  pub low : ℕ
  pub high : ℕ

abbrev pub pending : ℕ → ℕ → ℕ → ℕ → Option Pending
pending more value low high = some (record { more = more; value = value; low = low; high = high })

abbrev pub first_byte : ℕ → Option Pending
first_byte b =
    if in_range 0xC2 0xDF b
    then pending 1 (b - 0xC0) 0x80 0xBF
    else if b == 0xE0
    then pending 2 0 0xA0 0xBF
    else if b == 0xED
    then pending 2 13 0x80 0x9F
    else if in_range 0xE1 0xEF b
    then pending 2 (b - 0xE0) 0x80 0xBF
    else if b == 0xF0
    then pending 3 0 0x90 0xBF
    else if in_range 0xF1 0xF3 b
    then pending 3 (b - 0xF0) 0x80 0xBF
    else if b == 0xF4
    then pending 3 4 0x80 0x8F
    else none

abbrev pub push {ℓ} : {A : Type ℓ} → A → Option (List A) → Option (List A)
push a none = none
push a (some xs) = some (a ∷ xs)

-- the runes of a text, and nothing when it is not valid
unfoldable pub runes_after : Option Pending → Text → Option (List ℕ)
runes_after none [] = some []
runes_after (some p) [] = none
runes_after none (b ∷ s) = elim (first_byte b) [
  | some p ↦ runes_after (some p) s
  | none ↦ let rest = runes_after none s in if ltb b 0x80 then push b rest else none
]
runes_after (some p) (b ∷ s) =
    let value = p.value * 64 + (b - 0x80) in
    let rest = runes_after (if p.more == 1 then none else pending (p.more - 1) value 0x80 0xBF) s in
    if in_range p.low p.high b then if p.more == 1 then push value rest else rest else none

unfoldable pub runes : Text → Option (List ℕ)
unfolding runes_after
runes = runes_after none

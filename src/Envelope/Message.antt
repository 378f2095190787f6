-- ===== src/Envelope/Message.antt =====
-- Domain separation: what a signature made for one kind of envelope can be taken for.
use esec_vault.Base.{ℕ, ◌≡◌, refl, true, false, [], ◌∷◌, ◌++◌, Text, codes, all, ◌==◌, arith}
use esec_vault.Envelope.{kind_char, kind_pattern, message}

-- no `/` in a kind
kind_char_slash : (c : ℕ) → kind_char c ≡ true → (c == b'/') ≡ false
kind_char_slash c h = ground arith

-- Two kinds that are followed by a `/` are told apart by where the `/` stands.
kind_split :
    (k j x y : Text)
    → all kind_char k ≡ true
    → all kind_char j ≡ true
    → k ++ b'/' ∷ x ≡ j ++ b'/' ∷ y
    → (k ≡ j) × (x ≡ y)
kind_split [] [] x y hk hj e = (refl, cc)
kind_split [] (b ∷ j) x y hk hj e = absurd (ground (arith, kind_char_slash b))
kind_split (a ∷ k) [] x y hk hj e = absurd (ground (arith, kind_char_slash a))
kind_split (a ∷ k) (b ∷ j) x y hk hj e = ground (arith, kind_split k j x y)

kind_pattern-all : (k : Text) → kind_pattern k ≡ true → all kind_char k ≡ true
unfolding kind_pattern
kind_pattern-all [] h = cc
kind_pattern-all (c ∷ k) h = ground arith

-- The signed message determines both the kind and the body of an envelope with a valid kind, so a
-- signature over one message is over no other kind and no other body.
pub message_injective :
    (k j x y : Text)
    → kind_pattern k ≡ true
    → kind_pattern j ≡ true
    → message k x ≡ message j y
    → (k ≡ j) × (x ≡ y)
unfolding message
message_injective k j x y hk hj e =
    let (same, rest) =
      kind_split k j (codes "v1\n" ++ x) (codes "v1\n" ++ y) (kind_pattern-all k hk)
        (kind_pattern-all j hj) (ground arith) in
    (same, cc)

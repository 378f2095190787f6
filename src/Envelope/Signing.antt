-- ===== src/Envelope/Signing.antt =====
-- Signing, countersigning and verifying envelopes.
use esec_vault.Base.{
  suc, ◌+◌, ◌≤◌, ◌<◌, ◌≡◌, ◌↔◌, refl, ap, Bool, true, ◌||◌, List, [], ◌∷◌, ◌++◌, map, Text, length,
  any, all, text_eq_iff, text_eq_refl, length-append, arith, ok, >>=-eq-ok,
}
use esec_vault.Envelope.{
  Crypto, Envelope, message, hex_encode, check, unsigned, add_signature, add_signatures, new_raw,
  hash, signed_by, verified_by, require_keys, require, public_key_size,
}

-- What the program relies on of crypto/ed25519: a signature made by a key verifies under its public
-- half, which has 32 bytes.
pub record IsSound (c : Crypto) : Type 0 where
  pub verify_sign : (key msg : Text) → c.verify (c.public key) msg (c.sign key msg) ≡ true
  pub public_size : (key : Text) → length (c.public key) ≡ public_key_size

any-append :
    {A : Type 0} (p : A → Bool) (xs ys : List A) → any p (xs ++ ys) ≡ (any p xs || any p ys)
any-append p [] ys = refl
any-append p (x ∷ xs) ys = ground (arith, any-append p xs ys)

module _ (c : Crypto) where
  -- Adding a signature changes neither the hash, nor the kind and body, nor what was verified.
  pub add_signature-keeps :
      (key : Text) (e : Envelope) (p : Text)
      → (hash c (add_signature c key e) ≡ hash c e)
        × (verified_by c e p ≡ true → verified_by c (add_signature c key e) p ≡ true)
  unfolding add_signature verified_by hash
  add_signature-keeps key e p =
      (refl, λ h. rw (any-append (signed_by c p (message e.kind e.body)) e.sigs _) (ground arith))

  -- What `require` promises of an envelope that it lets pass.
  pub record IsAccepted (e : Envelope) (kind : Text) (keys : List Text) : Type 0 where
    pub checked : check e ≡ ok tt
    pub of_kind : e.kind ≡ kind
    pub some_key : 0 < length keys
    pub all_signed : all (verified_by c e) keys ≡ true

  require_keys-all :
      (e : Envelope) (keys : List Text)
      → (require_keys c e keys ≡ ok tt) ↔ (all (verified_by c e) keys ≡ true)
  unfolding require_keys
  require_keys-all e [] = (λ _. refl, λ _. refl)
  require_keys-all e (k ∷ ks) = (
    λ h. ground (arith, (require_keys-all e ks).0),
    λ h. ground (arith, (require_keys-all e ks).1),
  )

  -- `require` succeeds exactly when the envelope is well formed, has the kind asked for, at least
  -- one key is asked for, and every one of them made a valid signature over it.
  pub require_iff :
      (e : Envelope) (kind : Text) (keys : List Text)
      → (require c e kind keys ≡ ok tt) ↔ IsAccepted e kind keys
  unfolding require
  require_iff e kind keys = (
    λ h. ground (arith, text_eq_iff e.kind kind, require_keys-all e keys),
    λ h. ground (
      arith,
      h.checked,
      h.of_kind,
      h.some_key,
      h.all_signed,
      text_eq_iff e.kind kind,
      require_keys-all e keys,
    ),
  )

  module _ (sound : IsSound c) where
    add_signature-verified :
        (key : Text) (e : Envelope) → verified_by c (add_signature c key e) (c.public key) ≡ true
    unfolding add_signature verified_by signed_by
    add_signature-verified key e =
        rw (any-append (signed_by c (c.public key) (message e.kind e.body)) e.sigs _) (
          ground (
            arith,
            sound.public_size key,
            sound.verify_sign key (message e.kind e.body),
            text_eq_refl (hex_encode (c.public key)),
          ))

    add_signatures-keep :
        (keys : List Text) (e : Envelope) (p : Text)
        → verified_by c e p ≡ true
        → verified_by c (add_signatures c keys e) p ≡ true
    unfolding add_signatures
    add_signatures-keep [] e p h = h
    add_signatures-keep (k ∷ ks) e p h =
        add_signatures-keep ks (add_signature c k e) p ((add_signature-keeps k e p).1 h)

    add_signatures-verified :
        (keys : List Text) (e : Envelope)
        → all (verified_by c (add_signatures c keys e)) (map c.public keys) ≡ true
    unfolding add_signatures
    add_signatures-verified [] e = refl
    add_signatures-verified (k ∷ ks) e = ground (
      arith,
      add_signatures-keep ks (add_signature c k e) (c.public k) (add_signature-verified k e),
      add_signatures-verified ks (add_signature c k e),
    )

    add_signatures_shape :
        (keys : List Text) (e : Envelope)
        → let e' = add_signatures c keys e in
          (e'.v ≡ e.v)
          × (e'.kind ≡ e.kind)
          × (e'.body ≡ e.body)
          × (e'.passkey ≡ e.passkey)
          × (length e'.sigs ≡ length e.sigs + length keys)
    unfolding add_signatures add_signature
    add_signatures_shape [] e = (refl, refl, refl, refl, omega arith)
    add_signatures_shape (k ∷ ks) e = ground (
      arith,
      add_signatures_shape ks (add_signature c k e),
      length-append e.sigs
          (record { key = hex_encode (c.public k); sig = c.sign k (message e.kind e.body) } ∷ []),
    )

    unsigned-sigs :
        (kind body : Text) (e : Envelope) → unsigned kind body ≡ ok e → length e.sigs ≡ 0
    unfolding unsigned
    unsigned-sigs kind body e made = ground arith

    checked_shape :
        (kind body : Text) (e e' : Envelope)
        → unsigned kind body ≡ ok e
        → (e'.v ≡ e.v) × (e'.kind ≡ e.kind) × (e'.body ≡ e.body) × (e'.passkey ≡ e.passkey)
        → length e'.sigs ≤ 8
        → 0 < length body
        → (check e' ≡ ok tt) × (e'.kind ≡ kind)
    unfolding unsigned check
    checked_shape kind body e e' made same few filled = ground arith

    length-map : (keys : List Text) → length (map c.public keys) ≡ length keys
    length-map [] = refl
    length-map (k ∷ ks) = ap suc (length-map ks)

    signed-require :
        (kind body : Text) (keys : List Text) (e : Envelope)
        → unsigned kind body ≡ ok e
        → 0 < length keys
        → length keys ≤ 8
        → 0 < length body
        → require c (add_signatures c keys e) kind (map c.public keys) ≡ ok tt
    signed-require kind body keys e made some_key few filled =
        let (same_v, same_kind, same_body, same_passkey, sizes) = add_signatures_shape keys e in
        let (checked, of_kind) =
          checked_shape kind body e (add_signatures c keys e) made
            (same_v, same_kind, same_body, same_passkey)
            (omega (arith, unsigned-sigs kind body e made, sizes)) filled in
        (require_iff (add_signatures c keys e) kind (map c.public keys)).1 (record {
          checked = checked;
          of_kind = of_kind;
          some_key = omega (arith, length-map keys);
          all_signed = add_signatures-verified keys e;
        })

    -- What `new_raw` signs with one to eight keys, over a body that is not empty, is accepted by
    -- `require` for its kind and the public halves of those keys.
    pub new_raw-require :
        (kind body : Text) (keys : List Text) (e : Envelope)
        → new_raw c kind body keys ≡ ok e
        → 0 < length keys
        → length keys ≤ 8
        → 0 < length body
        → require c e kind (map c.public keys) ≡ ok tt
    unfolding new_raw
    new_raw-require kind body keys e made some_key few filled =
        let (e₀, blank, signed) =
          >>=-eq-ok (unsigned kind body) (λ e'. ok (add_signatures c keys e')) made in
        let same : add_signatures c keys e₀ ≡ e = cc signed in
        rw same at (signed-require kind body keys e₀ blank some_key few filled)

-- ===== src/Tests/Toy.antt =====
-- A toy instance of what the program does not implement, and a short device chain over it: the
-- first link, a first device, the server as a delegate, a rotation of the user key that keeps the
-- device, and a new name for the device.
use esec_vault.Base.{
  ℕ, zero, suc, ◌+◌, ◌*◌, Bool, Option, some, none, List, [], ◌∷◌, ◌++◌, Text, codes, text_eq, take,
  Result, ok, err, get_elem?, pos,
}
use esec_vault.Envelope.{Crypto, Envelope, hex_encode, add_signatures, version, hash}
use esec_vault.PasskeyGuard.{Age}
use esec_vault.Chain.Types.{
  Link, InitBody, Device, DeviceAddBody, UKeyRotateBody, Delegate, zero_time,
}
use esec_vault.Chain.Valid.{kind_link, kind_device_proof}
use esec_vault.Chain.State.{State, start}
use esec_vault.Chain.External.{External}
use esec_vault.Chain.Step.{verify}

abbrev pub bytes : ℕ → ℕ → Text
bytes zero b = []
bytes (suc n) b = b ∷ bytes n b

-- A key is its own public half, padded to 32 bytes, and its own signature; the digest of a text is
-- the text.
abbrev pub toy_crypto : Crypto
toy_crypto = record {
  public = λ key. take 32 (key ++ bytes 32 0);
  sign = λ key msg. take 32 (key ++ bytes 32 0);
  verify = λ key msg sig. text_eq sig key;
  sha256 = λ msg. msg;
}

abbrev pub toy_age : Age
toy_age = record {
  parse_recipient = λ s. none;
  parse_x25519 = λ s. Bool.true;
  decode_credential = λ s. none;
}

-- A body is one byte, the index of its value in a table.
abbrev pub table : {A : Type 0} → List A → Text → Option (A × ℕ)
table values [] = none
table values (i ∷ r) = elim (get_elem? values i) [ none ↦ none | some a ↦ some (a, 1) ]

abbrev pub signed : Text → ℕ → List Text → Envelope
signed kind i keys =
    add_signatures toy_crypto keys
      (record { v = version; kind = kind; body = i ∷ []; sigs = []; passkey = none })

abbrev pub user : Text
user = codes "gh:42"

abbrev pub key₁ : Text
key₁ = codes "k1"

abbrev pub key₂ : Text
key₂ = codes "k2"

abbrev pub device_key : Text
device_key = codes "d1"

abbrev pub master_key : Text
master_key = codes "m"

abbrev pub at_hour : ℕ → ℕ
at_hour n = zero_time + n * 3600000000000

abbrev pub init_body : InitBody
init_body = record {
  enc_pub = hex_encode (bytes 32 1);
  sign_pub = hex_encode (toy_crypto.public key₁);
  master_pub = hex_encode (bytes 32 2);
  master_sign_pub = hex_encode (toy_crypto.public master_key);
  root_sig = toy_crypto.public master_key;
}

abbrev pub laptop : Device
laptop = record {
  id = codes "d_laptop01";
  name = codes "laptop";
  platform = codes "linux/amd64";
  enc_pub = hex_encode (bytes 32 3);
  sign_pub = hex_encode (toy_crypto.public device_key);
  created = at_hour 1;
}

abbrev pub device_add_body : DeviceAddBody
device_add_body = record {
  device = laptop;
  proof = signed kind_device_proof 0 (device_key ∷ []);
  method = codes "first";
  approved_by = [];
  slot = [];
}

abbrev pub rotate_body : UKeyRotateBody
rotate_body = record {
  enc_pub = hex_encode (bytes 32 4);
  sign_pub = hex_encode (toy_crypto.public key₂);
  devices = codes "d_laptop01" ∷ [];
  reason = [];
}

abbrev pub server : Delegate
server = record {
  id = codes "dl_server01";
  kind = codes "server";
  name = codes "server";
  scope = codes "remove";
  sign_pub = hex_encode (bytes 32 9);
  alg = pos 0;
  public_key = [];
  credential_id = [];
  rp_id = [];
  origin = [];
  expires = zero_time;
  created = at_hour 1;
}

abbrev pub envelope₁ : Envelope
envelope₁ = signed kind_link 0 (key₁ ∷ [])

abbrev pub envelope₂ : Envelope
envelope₂ = signed kind_link 1 (key₁ ∷ [])

abbrev pub envelope₃ : Envelope
envelope₃ = signed kind_link 2 (key₁ ∷ [])

abbrev pub envelope₄ : Envelope
envelope₄ = signed kind_link 3 (key₁ ∷ key₂ ∷ [])

abbrev pub envelope₅ : Envelope
envelope₅ = signed kind_link 4 (key₂ ∷ [])

abbrev pub link₁ : Link
link₁ = record {
  seq = 1;
  prev = [];
  ctime = at_hour 1;
  typ = codes "init";
  user = user;
  ukey_version = 1;
  body = 0 ∷ [];
}

abbrev pub link₂ : Link
link₂ = record {
  seq = 2;
  prev = hash toy_crypto envelope₁;
  ctime = at_hour 2;
  typ = codes "device_add";
  user = user;
  ukey_version = 1;
  body = 0 ∷ [];
}

abbrev pub link₃ : Link
link₃ = record {
  seq = 3;
  prev = hash toy_crypto envelope₂;
  ctime = at_hour 3;
  typ = codes "delegate_add";
  user = user;
  ukey_version = 1;
  body = 0 ∷ [];
}

abbrev pub link₄ : Link
link₄ = record {
  seq = 4;
  prev = hash toy_crypto envelope₃;
  ctime = at_hour 4;
  typ = codes "ukey_rotate";
  user = user;
  ukey_version = 2;
  body = 0 ∷ [];
}

abbrev pub link₅ : Link
link₅ = record {
  seq = 5;
  prev = hash toy_crypto envelope₄;
  ctime = at_hour 5;
  typ = codes "device_rename";
  user = user;
  ukey_version = 2;
  body = 0 ∷ [];
}

abbrev pub toy : External
toy = record {
  crypto = toy_crypto;
  age = toy_age;
  parse_pkix = λ s. none;
  link = table (link₁ ∷ link₂ ∷ link₃ ∷ link₄ ∷ link₅ ∷ []);
  proof = table (record { user = user; device = laptop } ∷ []);
  init = table (init_body ∷ []);
  device_add = table (device_add_body ∷ []);
  device_revoke = λ s. none;
  device_rename = table (record { device_id = codes "d_laptop01"; name = codes "old laptop" } ∷ []);
  ukey_rotate = table (rotate_body ∷ []);
  agent_slot_add = λ s. none;
  agent_slot_remove = λ s. none;
  delegate_add = table (record { delegate = server } ∷ []);
  delegate_remove = λ s. none;
  security_key_add = λ s. none;
  security_key_remove = λ s. none;
}

abbrev pub or_start : Result State → State
or_start (ok s) = s
or_start (err e) = start []

abbrev pub all_links : List (Option Envelope)
all_links = some envelope₁ ∷ some envelope₂ ∷ some envelope₃ ∷ some envelope₄ ∷ some envelope₅ ∷ []

-- the state after the first links
abbrev pub state : ℕ → State
state n = or_start (verify toy user (take n all_links))

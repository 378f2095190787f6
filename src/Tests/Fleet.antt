-- ===== src/Tests/Fleet.antt =====
-- A toy group chain over the toy keys: alice makes the group and a token, the token enrolls a
-- machine, the server, which is alice's delegate, removes the machine, and alice sets a new key.
use esec_vault.Base.{
  ℕ, false, Option, some, none, List, [], ◌∷◌, Text, codes, take, Result, ok, err,
}
use esec_vault.Envelope.{Envelope, hex_encode, hash}
use esec_vault.Chain.Types.{zero_time}
use esec_vault.Group.Types.{Link, InitBody, RemoveBody, KeyRotateBody, Credential}
use esec_vault.Group.State.{State, start}
use esec_vault.Group.External.{External}
use esec_vault.Group.Step.{kind_link, verify}
use esec_vault.Group.Grants.{KeyGrant, KeyPayload, Recipient, Opening, AccountChains, kind_key}
use esec_vault.Tests.Toy.{toy_crypto, bytes, signed, table, key₁, user, at_hour}
use esec_vault.Tests.Project.{shared, alice, chains, account}

abbrev pub group : Text
group = codes "acme/prod"

abbrev pub token_cred : Credential
token_cred = record {
  id = codes "t_aaaaaaaa";
  name = codes "enroll";
  enc_pub = hex_encode (bytes 32 22);
  sign_pub = hex_encode (bytes 32 21);
  created = at_hour 1;
  expires = zero_time;
  oidc = none;
  kms = none;
}

abbrev pub machine_cred : Credential
machine_cred = record {
  id = codes "m_bbbbbbbb";
  name = codes "host";
  enc_pub = hex_encode (bytes 32 24);
  sign_pub = hex_encode (bytes 32 23);
  created = at_hour 1;
  expires = zero_time;
  oidc = none;
  kms = none;
}

abbrev pub init_body : InitBody
init_body = record {
  creator = alice;
  key = record { version = 1; enc_pub = hex_encode (bytes 32 31) };
}

abbrev pub rotate_body : KeyRotateBody
rotate_body = record {
  key = record { version = 2; enc_pub = hex_encode (bytes 32 32) };
  reason = [];
}

abbrev pub remove_body : RemoveBody
remove_body = record { id = codes "m_bbbbbbbb"; reason = []; destroyed = false }

abbrev pub envelope₁ : Envelope
envelope₁ = signed kind_link 0 (key₁ ∷ [])

abbrev pub envelope₂ : Envelope
envelope₂ = signed kind_link 1 (key₁ ∷ [])

abbrev pub envelope₃ : Envelope
envelope₃ = signed kind_link 2 (bytes 32 21 ∷ [])

abbrev pub envelope₄ : Envelope
envelope₄ = signed kind_link 3 (bytes 32 9 ∷ [])

abbrev pub envelope₅ : Envelope
envelope₅ = signed kind_link 4 (key₁ ∷ [])

abbrev pub link₁ : Link
link₁ = record {
  group = group;
  seq = 1;
  prev = [];
  ctime = at_hour 1;
  typ = codes "init";
  signer = user;
  signer_key = 1;
  signer_seq = 2;
  signer_delegate = [];
  body = 0 ∷ [];
}

abbrev pub link₂ : Link
link₂ = record link₁ {
  seq = 2;
  prev = hash toy_crypto envelope₁;
  ctime = at_hour 2;
  typ = codes "token_add";
}

abbrev pub link₃ : Link
link₃ = record {
  group = group;
  seq = 3;
  prev = hash toy_crypto envelope₂;
  ctime = at_hour 3;
  typ = codes "machine_add";
  signer = codes "t_aaaaaaaa";
  signer_key = 0;
  signer_seq = 0;
  signer_delegate = [];
  body = 0 ∷ [];
}

abbrev pub link₄ : Link
link₄ = record {
  group = group;
  seq = 4;
  prev = hash toy_crypto envelope₃;
  ctime = at_hour 4;
  typ = codes "remove";
  signer = user;
  signer_key = 0;
  signer_seq = 3;
  signer_delegate = codes "dl_server01";
  body = 0 ∷ [];
}

abbrev pub link₅ : Link
link₅ = record link₁ {
  seq = 5;
  prev = hash toy_crypto envelope₄;
  ctime = at_hour 5;
  typ = codes "key_rotate";
  signer_seq = 3;
}

abbrev pub fleet : External
fleet = record {
  team = shared;
  services = record { provider = λ name. none; rsa_bits = λ key. none };
  link = table (link₁ ∷ link₂ ∷ link₃ ∷ link₄ ∷ link₅ ∷ []);
  init = table (init_body ∷ []);
  admin_add = λ s. none;
  admin_remove = λ s. none;
  machine_add = table (record { machine = machine_cred; join = [] } ∷ []);
  token_add = table (record { token = token_cred } ∷ []);
  workload_add = λ s. none;
  workload_rekey = λ s. none;
  remove = table (remove_body ∷ []);
  key_rotate = table (rotate_body ∷ []);
  access_add = λ s. none;
  access_remove = λ s. none;
  member_add = λ s. none;
  member_remove = λ s. none;
}

abbrev pub or_start : Result State → State
or_start (ok s) = s
or_start (err e) = start []

abbrev pub all_links : List (Option Envelope)
all_links = some envelope₁ ∷ some envelope₂ ∷ some envelope₃ ∷ some envelope₄ ∷ some envelope₅ ∷ []

-- the state after the first links
abbrev pub state : ℕ → State
state n = or_start (verify fleet chains group (take n all_links))

-- alice's grant of the first key to the machine
abbrev pub grant : KeyGrant
grant = record {
  group = group;
  version = 1;
  enc_pub = hex_encode (bytes 32 31);
  from = user;
  from_key = 1;
  to = codes "m_bbbbbbbb";
  to_key = 0;
  to_enc_pub = hex_encode (bytes 32 24);
  ctime = at_hour 3;
  box = 0 ∷ [];
  seal = [];
}

abbrev pub payload : KeyPayload
payload = record {
  group = group;
  to = codes "m_bbbbbbbb";
  version = 1;
  key = hex_encode (bytes 32 31);
}

abbrev pub grant_envelope : Envelope
grant_envelope = signed kind_key 0 (key₁ ∷ [])

-- A box is its content, and a key its own public half.
abbrev pub opening : Opening
opening = record {
  grant = table (grant ∷ []);
  payload = table (payload ∷ []);
  open_box = λ box own priv. some box;
  public_half = λ key. key;
}

abbrev pub accounts : AccountChains
accounts = λ u. ok account

abbrev pub host : Recipient
host = record { id = codes "m_bbbbbbbb"; version = 0; enc_pub = bytes 32 24 }

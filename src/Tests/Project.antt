-- ===== src/Tests/Project.antt =====
-- A toy project chain over the toy keys: alice makes the project with one environment, lets mia read
-- it, the server, which is alice's delegate, removes mia, and alice sets a new key.
use esec_vault.Base.{
  ℕ, true, false, Option, some, none, List, [], ◌∷◌, Text, codes, text_eq, take, Result, ok, err,
  new, if◌then◌else◌,
}
use esec_vault.Envelope.{Envelope, hex_encode, hash}
use esec_vault.Chain.State as Account
use esec_vault.Team.Types.{Link, Person, InitBody, EnvSetBody, MemberAddBody, MemberRemoveBody}
use esec_vault.Team.State.{State, start}
use esec_vault.Team.External.{External, Chains}
use esec_vault.Team.Signer.{kind_link}
use esec_vault.Team.Step.{verify}
use esec_vault.Tests.Toy.{toy, toy_crypto, bytes, signed, table, key₁, user, at_hour, server}

abbrev pub project : Text
project = codes "acme/app"

abbrev pub env : Text
env = codes "production"

abbrev pub root₁ : Text
root₁ = hex_encode (bytes 32 7)

-- alice's account, with the first key and the delegate of the toy device chain
abbrev pub account : Account.State
account = record (Account.start user) {
  seq = 3;
  hashes = root₁ ∷ [];
  ukey_version = 1;
  epochs =
      record {
        version = 1;
        enc_pub = bytes 32 1;
        sign_pub = toy_crypto.public key₁;
        seq = 1;
        since = at_hour 1;
      }
      ∷ [];
  delegates =
      (
        codes "dl_server01",
        record { delegate = server; active = true; added_seq = 3; removed_seq = 0 },
      )
      ∷ [];
}

abbrev pub chains : Chains
chains = some (λ u. if text_eq u user then ok account else err (new "no such user"))

abbrev pub alice : Person
alice = record { user = user; login = codes "alice"; root = root₁ }

abbrev pub mia : Person
mia = record { user = codes "gh:7"; login = codes "mia"; root = hex_encode (bytes 32 8) }

abbrev pub init_body : InitBody
init_body = record {
  creator = alice;
  envs = record { name = env; public_key = hex_encode (bytes 32 11) } ∷ [];
  predecessor = none;
}

abbrev pub add_body : MemberAddBody
add_body = record { member = mia; admin = false; envs = env ∷ []; verified = codes "account_key" }

abbrev pub remove_body : MemberRemoveBody
remove_body = record { user = codes "gh:7"; reason = [] }

abbrev pub envelope₁ : Envelope
envelope₁ = signed kind_link 0 (key₁ ∷ [])

abbrev pub envelope₂ : Envelope
envelope₂ = signed kind_link 1 (key₁ ∷ [])

abbrev pub envelope₃ : Envelope
envelope₃ = signed kind_link 2 (bytes 32 9 ∷ [])

abbrev pub link₁ : Link
link₁ = record {
  project = project;
  seq = 1;
  prev = [];
  ctime = at_hour 1;
  typ = codes "init";
  signer = user;
  signer_key = 1;
  signer_seq = 2;
  signer_delegate = [];
  body = 0 ∷ [];
}

abbrev pub link₂ : Link
link₂ = record {
  project = project;
  seq = 2;
  prev = hash toy_crypto envelope₁;
  ctime = at_hour 2;
  typ = codes "member_add";
  signer = user;
  signer_key = 1;
  signer_seq = 2;
  signer_delegate = [];
  body = 0 ∷ [];
}

abbrev pub link₃ : Link
link₃ = record {
  project = project;
  seq = 3;
  prev = hash toy_crypto envelope₂;
  ctime = at_hour 3;
  typ = codes "member_remove";
  signer = user;
  signer_key = 0;
  signer_seq = 3;
  signer_delegate = codes "dl_server01";
  body = 0 ∷ [];
}

-- alice replaces the key that mia may still hold
abbrev pub set_body : EnvSetBody
set_body = record {
  env = record { name = env; public_key = hex_encode (bytes 32 12) };
  reason = [];
}

abbrev pub envelope₄ : Envelope
envelope₄ = signed kind_link 3 (key₁ ∷ [])

abbrev pub link₄ : Link
link₄ = record {
  project = project;
  seq = 4;
  prev = hash toy_crypto envelope₃;
  ctime = at_hour 4;
  typ = codes "env_set";
  signer = user;
  signer_key = 1;
  signer_seq = 3;
  signer_delegate = [];
  body = 0 ∷ [];
}

abbrev pub shared : External
shared = record {
  keys = toy;
  browser = record { client_data = λ s. none; verify_asn1 = λ key digest sig. false };
  org_repo = λ id. true;
  letter_or_number = λ c. false;
  link = table (link₁ ∷ link₂ ∷ link₃ ∷ link₄ ∷ []);
  init = table (init_body ∷ []);
  member_add = table (add_body ∷ []);
  member_update = λ s. none;
  member_remove = table (remove_body ∷ []);
  env_set = table (set_body ∷ []);
  env_rename = λ s. none;
  machine_add = λ s. none;
  machine_remove = λ s. none;
  group_set = λ s. none;
  archive = λ s. none;
  unarchive = λ s. none;
}

abbrev pub or_start : Result State → State
or_start (ok s) = s
or_start (err e) = start []

abbrev pub all_links : List (Option Envelope)
all_links = some envelope₁ ∷ some envelope₂ ∷ some envelope₃ ∷ some envelope₄ ∷ []

-- the state after the first links
abbrev pub state : ℕ → State
state n = or_start (verify shared chains project (take n all_links))

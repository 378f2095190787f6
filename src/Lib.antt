-- ===== src/Lib.antt =====
-- Verification of esec-vault, a vault of environment keys that people and machines share.
--
-- A server keeps what people publish and is not trusted with it. Whatever a client does rests on
-- chains of signed links that it checks itself: a person's device chain says which devices act for
-- the person and with which user key, a project's chain says who may read which environment keys,
-- and a group's chain says which machines and people hold the group's key, with which a group
-- reads what projects give it. This library models how a chain is checked, from the bytes of an
-- envelope to the state of the chain, and shows what a client may conclude from an accepted chain.
--
-- The parts, and the code they are about:
--   * Base: lists, texts, dictionaries, results and Boolean tests for all parts.
--   * Envelope: internal/envelope/envelope.go. NewRaw, Check, VerifiedBy, Require, Decode,
--     DecodeStrict, Challenge, AddSignature and Hash keep their names. Its children are about the
--     signed message, about signing and checking, and about the hash.
--   * PasskeyGuard: internal/passkeyguard/credential.go, as far as reading a recipient.
--   * Chain: internal/chain. Types has the JSON types of chain.go, delegate.go and securitykey.go;
--     State the verified state with its queries; Valid the checks of names and keys; Devices,
--     Delegates and SecurityKeys the handlers of the link types; Step the checks of a link and of
--     a chain (step, applyInit, apply, applyRotate, Next, Verify). The other modules of Chain are
--     proofs: Change is the abstract view of a link, with Refines and Keeps; Effect says what a
--     link does by its type and body, and Applied is about it; WellFormed the invariant; Runs the
--     induction over later links, which Epochs, DelegateHistory, Retired and Pin use, with Same
--     and History for the messages and hashes; Rotation, Signed and Names are about single
--     operations.
--   * Passkey: internal/passkey/passkey.go, what an assertion must be to count as a signature.
--   * Team: internal/team, as far as a project's chain. Types and State have the types of team.go;
--     Valid its checks of names; Oidc the policies of machine.go; Access who may be given what and
--     who is exposed; Envs setEnv and renameEnv (envrename.go); Delegate delegate.go; Signer
--     checkSigner, SignerKey and signerRoot; Members, Machines and Groups the handlers of the link
--     types; Step the checks of a link and of a chain. It asks for a member's device chain through
--     Chains, as the code does. The other modules are proofs: Change is the abstract view of a
--     link, with Refines; Frame the parts of a step; Admins, Scope, Signed, Exposed, Order, Keys,
--     Archived and Bounds are about what holds after any accepted link.
--   * Kms: internal/kms/kms.go, the keys of external key services, by which workloads of a group
--     are described.
--   * Group: internal/team/group.go, a group's chain. Types and State have its types and queries
--     (Admin, Member, Person, ActiveAdmins, KeyHolders, Cred); Valid the checks of credentials;
--     Creds the handlers for machines, tokens, workloads and the group's key, Persons those for
--     admins, members and projects; People checkSigner's part that signers.go has; Step the checks
--     of a link and of a chain; Grants CheckKeyGrant and OpenKeyGrant; InProject GroupExposures,
--     in which a group meets a project; Ids the ids of new machines, tokens and workloads, with
--     base32Lower of machine.go. It uses Team's checks of names and delegates, as the code does.
--     The other modules are proofs: Change is the abstract view of a link, with Refines; Frame the
--     parts of a step and the induction over later links; the rest are named for what they are
--     about.
--   * Mask: internal/runcmd/mask.go, masking secrets in a command's output. Replacer has the
--     masked texts (NewMasker) and strings.Replacer, Writer the buffer with Write, Flush,
--     heldBack, writePartial and the timer (idle). The other modules are proofs.
--   * Tests: toy keys, a chain of five links, a project chain of four, a group chain of five and a
--     project that trusts that group, small masked outputs and ids, on which the definitions run.
--
-- How the code is modelled:
--   * Text and byte slices are lists of bytes; a regular expression is a test written by hand,
--     with its anchors. A position, version or length is a natural number; where the code adds to
--     a uint64 the sum is taken modulo 2 ^ 64. A chain has at most max_links = 10000 links, so no
--     position of a chain that is accepted as a whole wraps. A project chain has the same bound.
--   * A time is a number of nanoseconds, counted from before the earliest time that JSON can
--     carry. A time zone and a monotonic clock play no part in the comparisons.
--   * A Go map is an association list by identifier, in which inserting replaces. Where the code
--     ranges over a map, the order does not matter to the result, but which of two errors is
--     reported, and the order of the lists of GroupExposures, may depend on it; the model then
--     fixes one order.
--   * The state is a value, so a failed step leaves no partly changed state behind, as in Go after
--     Next's clone. An error is a value with its format string, without the arguments.
--   * What stands outside the repository is a parameter: Crypto for Ed25519 and SHA-256, Age for
--     age's recipients, External of Chain with a JSON decoder for each type that is decoded and
--     the parser of X.509 keys, Browser for the JSON of a passkey's client data and ECDSA, and
--     External of Team with its decoders, Unicode's letters and numbers and the names of
--     repositories, External of Group with its decoders, Opening of Group.Grants for sealed boxes,
--     Kms.Services for keys of key services, and the writer below a masker. Random bytes are an
--     argument. A theorem that needs documented behaviour of these takes it as a hypothesis
--     (IsSound: what is signed verifies and a public key has 32 bytes). No theorem assumes that
--     SHA-256 has no collisions: where one would be needed, the theorem says that either its
--     conclusion holds or two different texts with one digest are at hand.
--   * All loops run over lists, so all functions are total and no fuel is needed, with two
--     exceptions. The loop of Mask.Writer over the complete lines of its buffer has the buffer's
--     length as fuel: each round takes at least the newline of one line out, so that is enough,
--     and no complete line is left over. The inner loop of base32Lower has two rounds: at most 12
--     bits are at hand, of which each round takes 5. A masker's timer is an event that may come
--     between any two writes.
--
-- Not modelled: building links and grants (json.Marshal), the texts of credentials and workload
-- descriptors (ParseCredKey, ParseWorkloadRef), an organisation's chain (internal/team/org.go),
-- transfers, grants and tenants of projects, what internal/policy, internal/keystore,
-- internal/share, internal/snapshot and the like keep, the words that people compare, everything
-- that is HTTP, SQL, files, subprocesses or a user interface, and encryption itself, which is
-- age's.
pub mod Base
pub mod Envelope
pub mod PasskeyGuard
pub mod Chain
pub mod Passkey
pub mod Team
pub mod Mask
pub mod Kms
pub mod Group
pub mod Tests

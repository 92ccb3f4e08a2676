-- ===== src/Lib.antt =====
-- Access control of vaultwarden-cli: the provider that holds operation policies and requests.
--
-- The modelled part is Rust code of src/access/ and src/access.rs, the identifiers of
-- src/secret_storage.rs, and the one-time codes of src/totp.rs.
-- A trusted human provisions operation policies. A human or a paired agent
-- submits a request for one, the human decides it, and an approved request is claimed, started and
-- finished once. Every step is recorded in the request's history and in one durable state file.
--
-- Files:
--   Base            lists, texts as UTF-8 bytes, decided equality, `Result`, and i64 texts
--   Strings         the `str` and `u8` tests that the source calls
--   Host            the crates that the source calls, as a record of functions
--   Ident           src/access.rs: identifiers, digests, public keys
--   Storage         src/secret_storage.rs: destinations, item names, write receipts
--   Policy          src/access/policy.rs: drafts, validation, canonical form, revision, arguments,
--                   review (Types, Checks, Ssh, Image, Draft, Arguments, Review)
--   Request         src/access/direct_request.rs and src/access/history.rs: a request's record, its
--                   history events and their validation (Types, Status, History, Record)
--   Agents          src/access/agent_binding.rs: pairings and their audit
--   State           src/access/provider_store.rs: the durable state, `validate_for_owner` (Validate),
--                   `RequestRecord::transition` (Transition), and the life of a request told
--                   without them (Lifecycle)
--   Store           src/access/provider_store.rs: reading, atomic writing, the end of an epoch
--   Protocol        src/access/protocol.rs: validation and signing bytes of agent messages
--   Provider        src/access/provider.rs: submission and decision (Requests), expiry (Expiry),
--                   execution (Execution), write receipts (Writes), pairing (Pairing), signed agents
--                   (Signed), policies and images (Catalogue), the history (Listing), and any
--                   sequence of them (Runs)
--   Environment     src/access/ports.rs: the environment of an executed program
--   Access          src/access.rs: the requests that agents sign (Types), and their preflight by the
--                   provider (Preflight)
--   Application     src/access/application.rs: the session in front of the provider. Its state and
--                   what it meets (Types, Action), admission, locking and authentication
--                   (Authority), decisions (Decision), submission and readings (Submission), the
--                   authority of an execution (Execution), an agent's status query and its loop
--                   (Queries), the reconciliation of a write (Reconcile), and any sequence of these
--                   methods (Run)
--   Approval        src/access/approval_v2.rs: the canonical form of a review (Canonical) and the
--                   transcripts that approvals and enrolments sign (Transcript)
--   Totp            src/totp.rs: seeds (Seed), the decoding of secrets and of parameters (Decode), and
--                   codes (Code)
--   Examples        a concrete host and request, and the theorems at them
--
-- How state and calls correspond. A provider is its store, the durable state in it, the lock state
-- and the state in memory. An operation is a plan, a function of the state that it reads, which
-- answers, fails, or names the state to write; `transact` and `transact_guarded` of Provider/Defs
-- read the store, run the plan, write, and replace the state in memory after a successful write.
-- What a call meets outside the program (failures of reading and writing, what `still_authorized`
-- answers around the rename, the clock, random bytes) is the record `Io` of Store. Machine integers
-- are numbers of ℕ with the source's wrap or bound written out; an exit code and an integer
-- argument are of ℤ. Printing an i64 takes 20 rounds, which the 19 digits of an i64 stay within.
-- The loop of a status query is given three rounds: each of the first two takes away one of the two
-- deadlines that it may cross.
--
-- A method of the application is an action on the session, which stays changed after an error. Other
-- threads may close admission, publish a revocation or withdraw an agent before every reading of a
-- shared flag, of a clock or of a device; the record `Outside` says what they do and what is read,
-- by the number of what was observed before. The gate keeps the methods themselves apart, so that
-- a sequence of them is a list; in the results below, the methods of the application that are called
-- in between are the eighteen of `Method` in Application/Run. A thread that panics while it holds a
-- lock is left out, and so is the release gate, so that others may act more often than they can;
-- what a closure asks around a write is an answer of `Io` for the same reason.
--
-- Parameters. `Host` holds what the source takes from base64, sha2, ed25519-dalek, serde_json and
-- `std::net`, and the check of an image file on disk; its functions are arbitrary. `Mac` of Totp/Code
-- is the HMAC, `Keys` of Access/Types is serde_json and ed25519-dalek for an agent's request, `Json`
-- and `ToValue` of Approval are serde_json, and `Eligibility` and `ImageCheck` of Provider/Catalogue
-- are the answers of the ports to the vault and to the image check.
--
-- Not modelled. The build is the one for Linux, so the account identifiers of macOS are left out.
-- JSON parsing and the migration of old state files in src/access/ are left out. Of the application,
-- signed submissions, the management of agents and policies, the methods of the companion and
-- the run of a process are left out. Sockets, the user interfaces, the vault's client and its
-- cryptography are left out.
pub mod Access
pub mod Application
pub mod Environment
pub mod Base
pub mod Strings
pub mod Host
pub mod Ident
pub mod Storage
pub mod Policy
pub mod Request
pub mod Agents
pub mod State
pub mod Store
pub mod Totp
pub mod Approval
pub mod Protocol
pub mod Provider
mod Examples

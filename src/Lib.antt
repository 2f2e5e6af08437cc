-- ===== src/Lib.antt =====
-- SignBox: a signing daemon for blockchain agents. An agent asks the daemon for a signature; the
-- daemon signs only what the agent's policy allows. The policy is stored in an on-chain contract,
-- read through a cache with an anti-rollback watermark, validated, and evaluated against the
-- decoded transaction; limits over time are kept in a quota journal, replays are refused by a
-- nonce cache, and decisions go to a hash-chained log.
--
-- The files and the code they model (paths from the repository's root):
--
--   Prelude: shared library names, tests on numbers, lists, texts and results that may be a throw.
--   Errors: src/core/errors.ts.
--   Asset: src/core/asset.ts, parsing, formatting and comparing of amounts. Asset/RoundTrip has
--     the round trips.
--   Value: JavaScript values, what JSON.parse returns.
--   Canonical: src/core/canonical/jcs.ts, `canonicalize`.
--   Policy/Types: the types of src/core/types.ts, src/core/policy/schema.ts, engine.ts and
--     dialect.ts.
--   Policy/Vocabulary, Policy/Schema: src/core/policy/vocabulary.ts and schema.ts,
--     `validatePolicy`.
--   Policy/Onchain: src/core/policy/onchain.ts, `verifyStoredPolicy`.
--   Policy/Predicates, Policy/Engine, Engine/Limits, Engine/Evaluate: src/core/policy/engine.ts,
--     `evaluatePolicy` and `collectProviderQueries`.
--   Xpr/Dialect, Xpr/Decode: src/chains/xpr/dialect.ts and decode.ts, the dialect of the XPR chain
--     and `decodeXprTransaction`.
--   NonceCache: src/daemon/nonceCache.ts.
--   Quota: src/daemon/quotaJournal.ts.
--   PolicyCache: src/daemon/policyCache.ts.
--   Audit: src/daemon/auditLog.ts.
--   Daemon/Keys: src/daemon/authorityCache.ts and identity.ts.
--   Daemon/Schema, Daemon/Protocol: src/daemon/protocol.ts, the request schemas and their parsing.
--   Daemon/State, Daemon/Gates, Daemon/Sign, Daemon/Submit, Daemon/Handle: the sign request of
--     src/daemon/server.ts, `handleRequest` and `runDecision`, with
--     src/daemon/providerResolver.ts.
--   Daemon/Relay: the other requests of src/daemon/server.ts, `handleBroadcastRequest` and
--     `handleReadRequest`, and the dispatch of a line by `peekOp` of src/daemon/protocol.ts.
--   Daemon/Admin: registration and administration commands of src/daemon/server.ts.
--   Json: JSON.stringify, whose length the relay measures.
--   Xpr/Rpc, Xpr/Relay: src/chains/xpr/rpc.ts and relay.ts, the RPC behind a fresh verification
--     and the read-only relay on it.
--   Xpr/Keyauth: src/chains/xpr/keyauth.ts and authority.ts.
--   Xpr/Broadcaster: src/chains/xpr/broadcaster.ts, what the result of a push means.
--   Keystore, Keystore/Open: src/keystore/encryptedFile.ts.
--   Onboarding/Actions: src/chains/xpr/onboardingActions.ts and the payload of `buildRequest` in
--     onboarding.ts.
--   Onboarding/Shapes, Onboarding/Validate: src/onboarding/validate.ts.
--   Onboarding/Landed: `verifyLanded` of src/chains/xpr/onboarding.ts.
--   Onboarding/Flow: src/onboarding/flow.ts, `runOnboarding`.
--   Contract: contract/assembly, the six actions of the policy contract on its table.
--
-- The components meet in their types: the engine takes a dialect record, which Xpr fills, and
-- gives quota demands, which the journal reserves; the policy cache stores what the contract's
-- rows say once `verifyStoredPolicy` passes it, which uses `canonicalize` and `validatePolicy`.
-- The onboarding flow works on the key files of Keystore and takes the chain's side as a record;
-- the payload that Actions builds is the one that Validate checks, and Landed judges keys by the
-- rule of Xpr/Keyauth. The child modules of a component hold its theorems, named for what they
-- prove, and runs on concrete inputs in Tests.
--
-- Texts are lists of UTF-16 code units, as JavaScript compares and measures them. Amounts and
-- times are natural numbers; a test that subtracts times is written as a sum, since subtraction
-- stops at 0. JavaScript numbers are naturals, negative integers, other finite numbers by their
-- text, and the non-finite ones. A property is read among the own properties of an object. The
-- fixed text of a refusal, which goes with its code, is left out. An exception is the error of a
-- result; a database is the list of its rows, and a transaction that throws leaves it as it was.
-- No loop needs fuel: each runs over a list.
--
-- The daemon's state holds, beside its stores, the calls that reached the signer and the
-- broadcaster; one request runs at a time.
--
-- SHA-256, JSON.parse, Ajv's reading of a document as a policy, the chain's answers, the decoder,
-- signer and broadcaster that the daemon is given, libsodium, the key encodings of @proton/js,
-- Date.parse, the clock and random ids are parameters.
--
-- Not modelled: requests that interleave at their awaits, concurrent calls of one RPC object, the
-- chain's policy reader, the wiring of src/chains/index.ts and registry.ts, keys and signatures of
-- @proton/js, the command line, the MCP server and the web application. A schema migration,
-- timers, sockets and the wiping of memory are left out.
pub mod Prelude
pub mod Errors
pub mod Asset
pub mod Value
pub mod Canonical
pub mod Json
pub mod Policy
pub mod Xpr
pub mod NonceCache
pub mod Quota
pub mod PolicyCache
pub mod Contract
pub mod Audit
pub mod Daemon
pub mod Keystore
pub mod Onboarding

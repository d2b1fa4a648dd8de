-- ===== src/Lib.antt =====
-- The ACDP registry: an HTTP service that stores contexts published by agents, under their DIDs, and serves
-- them with a change feed, receipts and subscriptions. This library models the parts that keep state in
-- process, from the Rust sources, and proves what each promises.
--
-- An agent asks the authentication service for a challenge, signs it, and redeems it for a bearer token; the
-- challenge store makes a nonce single-use and the revocation store ends a token early. Requests are charged
-- to an address and an agent by the rate limiter. A publication or a lifecycle event appends rows to the
-- change feed, in the transaction that mints its event receipt; readers page through the feed, and
-- subscriptions are claimed under a lease and told that the feed's head has moved. A keyless publication
-- carries a workload token, which is checked against the keys of its issuer; the poller takes the peers'
-- revocations over, and webhooks tell an operator what happened.
--
--   Prelude, Time       shared types, lists, results, maps; instants as nanoseconds
--   Auth/ChallengeStore crates/acdp-registry-auth/src/challenge_store.rs: put, take, evict_expired
--   Auth/RevocationStore crates/acdp-registry-auth/src/revocation_store.rs: InMemoryRevocationStore
--   Auth/RevocationPoller crates/acdp-registry-auth/src/revocation_poller.rs: poll_loop, fetch_once,
--                       apply_entries
--   Auth/Claims, Error  crates/acdp-registry-types/src/auth.rs, crates/acdp-registry-auth/src/lib.rs
--   Auth/Jwt            crates/acdp-registry-auth/src/jwt.rs: sign and validate
--   Auth/Keys           crates/acdp-registry-auth/src/service.rs: the key and signature of issue_token
--   Auth/Service        crates/acdp-registry-auth/src/service.rs: issue_challenge, issue_token, revoke_token
--   RateLimit           crates/acdp-registry-core/src/rate_limit.rs: AgentRateLimiter and PublishCharge
--   RateLimit/Layered   crates/acdp-registry-core/src/rate_limit_shared.rs: LayeredRateLimiter::check
--   ClientIp            crates/acdp-registry-core/src/rate_limit.rs and tenant_trust.rs: trusted proxies
--   Changes             crates/acdp-registry-store/src/changes.rs and change_bucket.rs, and Feed of
--                       crates/acdp-registry-server/src/memory_ext.rs
--   Changes/Since       where a request starts, and what anchors a cursor: `Since`, `anchor_at` and
--                       `anchor_holds` of crates/acdp-registry-core/src/handlers/changes.rs
--   Changes/Append      the rows that a publication or an event appends, and what they are served as:
--                       crates/acdp-registry-store/src/changes.rs
--   Changes/Page        the types and the row loop of crates/acdp-registry-core/src/handlers/changes.rs
--   Changes/Serve       evaluate_changes of crates/acdp-registry-core/src/handlers/changes.rs
--   Changes/Cursor      encode_cursor and decode_cursor of crates/acdp-registry-core/src/changes_key.rs
--   ReadTokens          crates/acdp-registry-auth/src/read_token.rs
--   ReadGate            crates/acdp-registry-core/src/read_gate.rs: resolve, read_gate, charge
--   Hints               crates/acdp-registry-core/src/hints.rs: hint_one, retry_or_disable, deliver
--   EventReceipts       crates/acdp-registry-store/src/event_receipts.rs
--   KeyAttestations     crates/acdp-registry-store/src/key_attestations.rs, and the closures of
--                       commit_publish in crates/acdp-registry-server/src/memory_ext.rs; KeyAttestations/Minted takes
--                       publications one after the other, with the set of used tokens
--   Keyless/Jwks        crates/acdp-registry-core/src/keyless/jwks.rs: JwksCache
--   Keyless/Token       verify of crates/acdp-registry-core/src/keyless/token.rs; its parts are Keyless/Header,
--                       Keyless/SigningKey and Keyless/Claims
--   Webhooks            crates/acdp-registry-webhook/src/lib.rs: WebhookEmitter, worker, deliver, sign
--   Subscriptions       crates/acdp-registry-store/src/subscriptions.rs, and the subscription methods of
--                       crates/acdp-registry-server/src/memory_ext.rs
--
-- An operation takes the state and answers its result and the next state; the clock, random bytes and what a
-- third-party crate computes are arguments. A mutex is the state it guards, and an interleaving of calls a
-- list of them, in the order in which the lock is taken. Loops are recursion on the lists they traverse, and
-- the refill loop of GET /changes on its bound of six scans. The readers that the theorems run are bound by
-- fuel: read_all of Changes/MemoryFeed/Paging is shown to end within one page more than there are rows, and
-- follow of Changes/Serve/Follow within one request for each position up to the head, and one. The loop of a
-- webhook delivery has as fuel the attempts that it may make, and is shown to end within them. A u32 counter
-- saturates where the source saturates it; u64 positions and i64 times are natural numbers, taken not to
-- overflow, and instants count from chrono's earliest one.
--
-- GET /changes takes one feed for each of its calls of the store, so that the feed may change in between; a
-- hint's turn takes those of its evaluations, the head that it read and the readings of its clock. A cursor
-- stands there as what it says, its position and anchor, and Changes/Cursor relates that to its sealed text.
--
-- The crates acdp, jsonwebtoken and serde_json, SHA-256 and std's parsers of addresses are parameters. What
-- is asked of them is named: DecodeValidates (Auth/Jwt), Mints and Truncates (EventReceipts/Filling):
-- minting truncates to the millisecond. What GET /changes asks of the rest of the registry is the record
-- Registry of Changes/Page, with the law Sees and, for one feed, Total of Changes/Serve/Total: that its rows
-- render, as those do that were checked before their append (Changes/Append/Rendered), and that the answers
-- made of it pass the schema check. SameToken of KeyAttestations/Minted asks that the index row of a request
-- has the token of its body's. What a hint asks of the network is the record Worker of Hints; what a cursor
-- asks of its primitives is Sound of Changes/Cursor/Codec; what the read gate asks is the record GateState
-- of ReadGate, with digests of 32 bytes. What the webhooks ask of their channel is Documented of
-- Webhooks/Queue, and the poller of its store Reliable of Auth/RevocationPoller/Applied, which
-- Auth/RevocationPoller/Memory fills; what the check of a workload token asks is the record Sdk of
-- Keyless/Sdk, and what a change is made with is the record Sdk of Changes/Append, with the law Uniform of
-- Changes/Append/Told.
--
-- Not modelled: the SQLite and PostgreSQL backends, whose operations are SQL texts; poisoned locks; logging
-- and metrics; HTTP routing, loading of the configuration, the mint of attestations, witnesses and the
-- transparency log.
pub mod Prelude
pub mod Time
pub mod Webhooks
pub mod Auth
pub mod RateLimit
pub mod Changes
pub mod EventReceipts
pub mod Subscriptions
pub mod ClientIp
pub mod Hints
pub mod ReadTokens
pub mod ReadGate
pub mod KeyAttestations
pub mod Keyless

-- ===== src/Lib.antt =====
-- The verification library of the customer-care gateway, a NestJS backend for a mobile application: a
-- user signs in with a phone, binds to a customer record by a secret of a bill, and then reads customer
-- data and pays through ports to other services.
--
-- The parts and how they interact. The binding service (src/modules/binding/binding.service.ts) resolves
-- the user's phone at the customer service, keeps the answer in the cache, and on `bind` asks the rate
-- limiter (binding-rate-limiter.service.ts), lets the customer service verify the secret, writes the
-- binding's row with the customer id encrypted, and warms the cache. The guard
-- (guards/binding-verified.guard.ts) reads that entry, or the row, before each request for customer data.
-- The cache is src/libs/shared/caching/memory-cache.service.ts or its Redis counterpart. Domain events
-- leave through the outbox table (src/libs/shared/database/outbox), which processors poll.
--
-- The files.
--   Prelude: Boolean tests, lists, texts as lists of code units, integers, maps in the order of
--     insertion, and methods that change a state and may throw (Results).
--   Cache.Contract: what the clients of ICacheService rely on, a record of operations and laws. A read at
--     time `t` is `peek t`; `HasRoom n` says that `n` more writes push nothing out.
--   Cache.Memory: MemoryCacheService, a method per function; Reads has its laws, Capacity its bound,
--     Claims setIfNotExist, Patterns deleteByPattern, Instance the contract, and Refinement a
--     specification of its replies. Cache.Glob is its RegExp.
--   Binding.Types, Keys, Pii, Tables, Env: the data of the bind flow, its cache keys, encryptIfNeeded and
--     decryptIfNeeded, the two tables with upsertVerified, and what the flow runs on.
--   Binding.RateLimiter: checkLocked, recordFailure and clearFailures over any cache of the contract;
--     its children count the wrong guesses that reach the customer service.
--   Binding.Flow, Service, Register: bindInit, bind and bindRegister, cut where their branches part;
--     Success, Refusals, Audit, SingleUse and Outcomes have the proofs.
--   Binding.Guard: canActivate and resolveBinding; AfterBind and Backing have the proofs.
--   Binding.Requests: any sequence of these requests.
--   Outbox.Repository, Outbox.Processor: the methods of OutboxRepository as statements on a list of rows,
--     and a poll of OutboxProcessorService; Finding, Order, Entry and Batch have the proofs.
--   Outbox.Instances: many processors on one table as a step relation, a step per call of the repository
--     or the bus; Invariant and its children keep its invariant, Safety concludes.
--   Payment: PaymentService with its idempotency, over ports and a cache; Idempotency is
--     src/libs/shared/idempotency/idempotency.service.ts.
--   Account: src/modules/account/clients/customer-service-mock.client.ts. Phone has normalizePhone, the
--     masked names and the numbered references, Seeds its first customers, MockClient its operations and
--     their form as the customer service that the bind flow takes.
--   Resilience: src/libs/shared/resilience, the state of a circuit breaker (Breaker) and a call through it
--     (Execute), whose child Outcomes has the proofs; Retry is RetryService, with its proofs in Attempts.
--   Ports: src/libs/shared/port/port-registry.service.ts. Types has its interfaces, Fallback the provider of
--     src/libs/shared/resilience/fallback.provider.ts, Methods isMutationMethod, Registry its state and
--     register, Degraded executeWithQueue and executeFallback, Success the writes after an answer,
--     Execute the call and the replay. Under Execute, Inversion and Answered say which way an answer
--     came, Idle what the calls between two of a port keep; Reads, Freshness, Stale and Probe have the
--     proofs.
--   Users: src/modules/auth/domain, the user with its provider links and events (Types, Aggregate), and
--     the save of src/libs/shared/database/repositories/base-aggregate.repository.ts (Repository); the
--     proofs are in Invariant, Requests, Reconstitution and Versions.
--   Security: src/libs/shared/security. RateLimit is rate-limiter.guard.ts (Configs has the proof),
--     Authorization is authorization.decorator.ts (Allowed and Ownership).
--   Support: the chat of src/modules/support, where Outbox is sendMessage and chat-outbox.forwarder.ts over
--     the port registry, with its proofs in Batch, Flush and Delivery, and Conversation is getConversation
--     (Merged).
--   Sessions: src/modules/session/session.service.ts, with its proofs in Pages.
--   Inbound: src/libs/shared/port/inbound-idempotency.service.ts, the claims of repeated deliveries.
--
-- How the code is read. A method is a function of the clock's reading in milliseconds, its arguments and
-- the state, and returns its answer, or its error, beside the new state: what was written before a throw
-- stays written. A request runs at one reading of the clock, and requests run one after the other, except
-- the outbox processors, which are interleaved. Numbers are natural numbers; the counts, the times and
-- the amounts of the source are non-negative integers below 2 ^ 53, where its doubles are exact. The
-- remaining time that `ttl` returns may be negative and is an integer. null and undefined are `none`, and
-- the tests of the source for falsy values are written out. Loops go over lists; the digits of a number
-- are printed on fuel, one more than the number, which has no more digits than that.
--
-- Outside the source: the real customer service and the event bus, which may throw and change a
-- state of their own; AES-256-GCM, of which decrypting what was encrypted and a ciphertext that is
-- not empty are used; random ids and vectors, by a counter of the draws; JSON; the adapters, the
-- queue and the hash of the port registry; the target of a retry; reflect-metadata and the pipeline
-- of a Redis client; persist, the bus and the outbox of a saved aggregate; PostgreSQL, whose statements
-- are functions on lists of rows that succeed unless a primary key is broken, or an audit row is
-- refused. The breaker's comparison of its failure rate, a quotient of doubles, with the threshold
-- is a parameter without laws.
--
-- Not modelled: logging, metrics, controllers and wiring; Redis; failing reads and writes of the cache;
-- two requests of one user interleaved within a bind; overlapping calls of a circuit breaker or of a port.
pub mod Prelude
pub mod Cache
pub mod Binding
pub mod Outbox
pub mod Payment
pub mod Inbound
pub mod Account
pub mod Resilience
pub mod Ports
pub mod Users
pub mod Security
pub mod Support
pub mod Sessions

-- ===== src/Lib.antt =====
-- Multisub Infra: a verification library for the backend that issues cards over USDC Safes.
--
-- The backend authorizes card payments against a cache in Redis within 300 milliseconds, settles
-- approved spends on chain from a queue, sweeps the users' deposits into a treasury, and shares out
-- the yield of the vaults. HTTP requests reach it through an API key check and a rate limiter; the
-- webhooks of the card issuer and of the KYC provider carry signatures, as do those it sends to its
-- tenants.
--
-- Files, with the code of the repository that they model:
--   Prelude          shared notation: tests, texts, lists, integers, and lemmas on them
--   Decimal          `BigInt(text)` and `toString()` on decimal texts; Bounds and Print have the
--                    lemmas on them, and Texts the characters that are printed
--   Types            backend/src/types/index.ts
--   Redis            backend/src/lib/redis.ts: the store, getAuthCache, setAuthCache,
--                    updateAuthCacheSpend, SPEND_LUA_SCRIPT, atomicAuthSpend, card mappings and
--                    checkRateLimit. Redis/Digits has the script's string arithmetic (str_gte,
--                    str_add, str_sub) and the lemmas on it; Redis/Script compares the script with
--                    the WATCH path; Redis/Charges and Redis/Spend run spends one after another, and
--                    Redis/Account is the book of accounts that they refine
--   Middleware       backend/src/middleware: Auth is requireAuth, RateLimit is rateLimit and
--                    webhookRateLimit
--   Authorization    backend/src/services/authorization-engine.ts: `authorize` as a chain of steps,
--                    each an action on the state of Authorization/State; Refresh is refreshCache.
--                    Ensures, Extends, Keeps, Marks, Approval, Rebuild, Sound, Judged and Steps
--                    carry the proofs that Decision and Runs put together; Sample has data for tests
--   Settlement       backend/src/services/settlement-service.ts: processJob with its retries, and
--                    the worker that takes jobs from the queue. Gas, Worker and Outcome have the
--                    proofs; Batch is processQueue, Lifecycle start and stop
--   Treasury         backend/src/services/sweep-service.ts (Sweep) and yield-manager.ts (Yield, whose
--                    own sweep is Yield/Cycle, compared in Yield/Agrees, and toBytes32 Yield/Bytes)
--   Signature        verifyWebhookSignature of backend/src/integrations/lithic.ts and kyc.ts
--   Webhooks         backend/src/routes/webhooks.ts: the handler of Lithic's authorization webhooks
--                    around the engine. Accept, Approved, Marked, Once, InTime and Lapse have the proofs
--   Cards            backend/src/routes/cards.ts: issuing, listing and changing cards. Frozen, together with the
--                    engine, and Tenants have the proofs
--   Kyc              backend/src/routes/kyc.ts: sessions, status, and Sumsub's webhooks, with the proofs
--                    in Accept and Status
--   Delivery         backend/src/services/webhook-dispatcher.ts: validateWebhookUrl, dispatch with its
--                    attempts, dispatchForCard. Address, Attempts and Safe have the proofs
--   Sdk              sdk/src/webhook.ts: verification of webhooks; Numbers, RoundTrip and Sound have
--                    the proofs
--   Watcher          backend/src/services/watcher.ts: poll, fetchDeposits, handleDeposit and
--                    updateRedisCacheForDeposit. Scan, Polls and Deposits have the proofs. Reconcile is
--                    reconcile, start and stop
--
-- How the parts meet: the webhook handler runs the engine for a token that is not marked, records the
-- decision, and hands an approval to the settlement queue and each decision to the dispatcher, whose
-- posts the SDK verifies; the card routes write the mappings that the engine reads; the engine spends
-- from the store of Redis and rebuilds its caches from the rows of the database; the middleware
-- counts requests in the same store; the watcher writes balances into it; an approved spend is a
-- settlement job; sweeps and yield are entries of the ledger that a rebuild sums.
--
-- Calls. Redis, the database, the chain and the wallet are outside of this code. What they answer
-- is data: in the engine each awaited call meets an event that says how long it takes and whether
-- it is answered, fails, takes effect and loses its answer, or is an EXEC that Redis refuses; in the
-- services each job, Safe or tenant comes with the answers of its calls. Prices of gas, hashes and
-- block numbers are whatever these answer. SHA-256, HMAC, JSON, URLs and the reading of hexadecimal
-- digits are parameters; a theorem that relies on what these document has that as a hypothesis.
--
-- Numbers are natural numbers without bound, as BigInt values are; amounts of events are integers.
-- Where the code keeps decimal texts, the model keeps lists of digits.
--
-- Loops are recursion on their lists or counts. `to_string` runs on fuel one more than the number,
-- which has fewer digits than that; the fallback's fuel is the code's own bound of three attempts;
-- the worker's fuel is the number of jobs it processes, for which the attempts left are enough; the
-- dispatcher's loop runs over the list of its delays.
--
-- Not modelled: the routes but for webhooks, cards and KYC, the clients of Lithic and of the KYC
-- provider, the SDK's client, and the server's wiring and configuration, which are input and output
-- around these parts or stand apart from them; the contracts, which are in another language; logging;
-- requests that overlap, with them the WATCH of a connection that several calls share: a call of the
-- store is one step; and the expiry of keys, but for that of the marks of webhooks.
pub mod Authorization
pub mod Cards
pub mod Decimal
pub mod Delivery
pub mod Kyc
pub mod Middleware
pub mod Prelude
pub mod Redis
pub mod Sdk
pub mod Settlement
pub mod Signature
pub mod Treasury
pub mod Types
pub mod Watcher
pub mod Webhooks

-- ===== src/Lib.antt =====
-- FacilPay API: the core of the payment platform, modelled and proved.
--
-- The program is a NestJS service. Its services read and write tables through TypeORM repositories,
-- and send server events, mails and merchant webhooks. This library models the services of
-- src/modules/payments that change the state of payments, with their webhooks, and those of the
-- modules auth, users, sessions, checkout-sessions, payment-links, api-keys, settlements, webhooks,
-- merchants, onboarding and stellar.
--
-- The parts and their files:
--   Common, Common/*          shared names, Boolean tests, integers, lists, texts, bits, and service
--                             methods as functions from a state to a result and a state
--                             (Common/Action) whose writes may fail (Common/Store)
--   Repository                what the services use of a TypeORM repository, as operations with laws;
--                             Repository/Rows is a table of rows for which the laws hold
--   Model/Entities            the entities of modules/payments (payment, refund, split, dispute, fee
--                             configuration), the settlement adjustment and the payment link
--   Model/State               the tables, the messages that were sent, failing writes, transactions
--   Payments/Creation         payments.service.ts: create, createBulk, ensurePaymentLimits,
--                             validateMerchantId
--   Payments/Refund           payments.service.ts: refund, sendRefundNotifications,
--                             dispatchRefundWebhook
--   Payments/Splits           payments.service.ts: processSplitsForPayment
--   Payments/Fee              payments.service.ts: calculateFee, upsertMerchantFeeConfig,
--                             getMerchantFeeConfig
--   Payments/Lifecycle        payments.service.ts: handleWebhook (Webhook), cancel (Cancel),
--                             expirePendingPayments (Expiry), simulate (Simulation); and
--                             payment-links.service.ts: incrementCompletions (Links)
--   Payments/Reminders        invoice-reminder.service.ts
--   Payments/Stream           payment-sse.service.ts
--   Disputes                  disputes.service.ts: create, update, validateStatusTransition
--                             (Disputes/Transitions)
--   Idempotency               idempotency.service.ts; Idempotency/Interceptor is
--                             idempotency.interceptor.ts
--   Recurring                 recurring-payments.service.ts: the plans (Recurring/Plans) and the sweep
--                             that charges them (Recurring/Execution), the notices
--                             (Recurring/Notifications)
--   Webhooks/Signature        webhook-signature.service.ts and webhook.guard.ts: incoming webhooks
--   Webhooks/Delivery         webhook-delivery.service.ts: the attempts to deliver outgoing ones
--   Accounts                  auth.service.ts: login and two-factor codes (Login), refresh tokens
--                             (Tokens), password resets with password-history.service.ts (Passwords),
--                             step-ups and backup codes (StepUp), registration (Registration);
--                             roles with jwt.strategy.ts and permissions.guard.ts (Roles);
--                             users.service.ts (Users, Profile); sessions.service.ts (Sessions)
--   Checkout                  checkout-sessions.service.ts
--   PaymentLinks              payment-links.service.ts: finding, redeeming, deactivating and updating
--                             a link; its creation (Creation), its events (Analytics) and getAnalytics
--                             (Analytics/Buckets)
--   Webhooks/Merchant         modules/webhooks: endpoints (Endpoints), their failures (Failures), dispatch
--                             (Dispatch), replays (Replay) and webhooks.processor.ts (Processor)
--   Settlements               settlements.service.ts: payout destinations (Destinations), the runs
--                             (Run, with the rows in Amounts), reserves (Reserve), statements
--                             (Statement)
--   Stellar                   stellar.service.ts: transactions with several signatures (MultiSig), assets
--                             (Assets)
--   Merchants/Onboarding      onboarding.service.ts, and the profile in merchants.service.ts (Profile)
--   Merchants/Restrictions    merchants.service.ts: countries and addresses; Merchants/Geo is
--                             geo-lookup.service.ts
--   Merchants/Throttler       merchant-throttler.guard.ts
--   Merchants/Ip              merchants/ip-utils.ts
--   Merchants/ApiKeys         api-keys.service.ts, with api-key-auth.guard.ts (Guard)
--   Examples                  the theorems at concrete tables
-- Files named Laws, Bounds, Limits, Charges, Opening, Complete, Replay, Attempts, Lockout, Changes,
-- Rotation, Undated, Unreleased, Outcome, Ownership, Disabled, Redelivery, Progress, Rows, Signers,
-- Backed, Approval, Entries, Cache, Kept, Unique, Once, Silent, Found, Debounce, Assigned, Permitted, Sums, Fuel and Redemptions hold proofs about the file above
-- them, and Recurring/Reachable the states that sequences of calls and sweeps reach.
--
-- How the code is read. A service method is a function from a state to a result, `ok` or `err` with
-- the exception, and the state after it: what was written before an exception stays written, unless a
-- transaction rolls it back. Each write to the database may throw: the state holds a list that says of
-- each coming write whether it does, and when the list is used up no write throws; so a theorem about
-- every state covers every pattern of failures, and "no write fails" is the empty list. A call whose
-- exception the code catches and only logs, a mail or a webhook, is a message in the outbox. The order
-- in which a query returns rows is whatever the repository's `find` gives. The current time, the
-- identifiers that the database assigns, random tokens, configuration values and the answers of other
-- services (Stellar transfers, PaymentsService.create for plans and checkout sessions, HTTP calls, other
-- processes on the idempotency table) are arguments. bcrypt, SHA-256, HMAC, TOTP codes, node's net and
-- TypeORM's reading of null in a condition are parameters. Calls of a service follow one another,
-- except where other processes are said to interfere.
--
-- Numbers. Amounts are whole hundredths, as the columns decimal(10, 2) hold them; what rounding to
-- hundredths gives is a parameter, and sums and products of amounts are exact. Times are milliseconds.
-- A day is 24 hours; one month later is a function that is given. Texts and identifiers are numbers, and
-- the hash of a request body is given by its number; where the code looks inside a text (signatures,
-- addresses) it is a list of codes. The 32-bit numbers of addresses are kept modulo 2 ^ 32. What the code
-- calls on a class that does not declare it throws, or is an argument where it says so.
--
-- Bounds. The loops of the code run over lists, and are recursions on them. The retries of
-- checkOrClaimKey are recursive calls after a race with another process: the argument lists what the
-- others do in each round, so that every finite interference is covered, and a call ends when they
-- stop. The attempts of a delivery and the tries of a log-in are steps of a relation or a list.
-- The loop of buildBuckets over the dates of a range has fuel for one round more than the range has
-- whole days, and each round goes on by a day or a week (Fuel).
--
-- Not modelled: queries of payments, cursors and the timeline, and the lists of the other services,
-- which only read and whose conditions TypeORM turns into SQL; invoices, exports, reports and mails,
-- which format what was read; clients of external services, controllers and configuration.
pub mod Common
pub mod Repository
pub mod Model
pub mod Payments
pub mod Disputes
pub mod Idempotency
pub mod Recurring
pub mod Webhooks
pub mod Accounts
pub mod Checkout
pub mod Merchants
pub mod PaymentLinks
pub mod Settlements
pub mod Stellar
mod Examples

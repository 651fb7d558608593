-- ===== src/Lib.antt =====
-- A model of the core logic of POWEROTP, the phone-verification control plane, with its theorems.
--
-- The parts, and where they are modelled:
-- Auth: hosted sign-in. Auth/Scope.antt has the scopes that every command carries, with their
--   schemas (backend/packages/contracts/src/hosted-auth-ceremony-scopes.ts, hosted-auth-boundaries.ts)
--   and the test sameScope; Auth/Core.antt has the reducer applyHostedAuthTransition
--   (hosted-auth-state-machine-core.ts). Request, Polling, Webauthn, Contact, Recovery, Grant and
--   Assurance are the machines that it runs (hosted-auth-request-, -proof- and
--   -recovery-state-machines.ts), each with its rules as the source builds them.
-- Verification: phone and email verification. Verification/State.antt is the state machine
--   (backend/packages/api/src/verification-state-machine.ts). Verification/Store.antt has the stored
--   documents and queues as one record, and the parts of transition; Verification/Service.antt has
--   transition, cancel, submitCode and submitChallenge, and Verification/Delivery.antt the metadata
--   updates, the interaction token and claimNextForNode. Verification/Desk.antt and
--   Verification/Create.antt have create, in the parts between which another request can run. All are
--   of backend/packages/api/src/verification-service.ts. Every database call there is one atomic step;
--   the conditional update is the definition commit, which a stale snapshot can be given to. The
--   charge of a delivery, the decryption of codes and UTF-8 are injected or library code, and are
--   parameters, and so is the grading of challenges, which Verification/Grading.antt has
--   (gradeSubmission of backend/packages/api/src/challenge-service.ts). The charge, the decryption and
--   the grading can throw, and then the method fails with an error of theirs.
-- Billing: the ledger of customer balances, and the charge of a completed delivery. Billing.antt has
--   money and tiers, Billing/Books.antt the documents, Billing/Ledger.antt one transaction on them,
--   Billing/Ledger/Apply.antt the methods of BalanceService with their two attempts (backend/packages/api/src/balance-service.ts),
--   Billing/Rates.antt the rate charts (rate-chart-service.ts) and Billing/Charge.antt the charge and its
--   retry (billing-charge-service.ts), which is the charge that the verification service is given. Stored
--   amounts are whole millionths of a dollar, and amounts before rounding are millionths of those; doubles
--   round elsewhere too, which is not modelled.
-- Accounting: backend/packages/api/src/accounting-money.ts. Accounting/Payout.antt has the division of a
--   payout among projects (allocatePayoutMicros), Accounting/Money.antt the amounts in decimal dollars.
-- BotGate: the scores of the bot gate. BotGate/Scoring.antt has the scoring expressions, their evaluation
--   and the check of their operators, BotGate/Scores.antt the aggregation over the configured fields, and
--   BotGate/Profile.antt and BotGate/RiskEvent.antt the inputs of a profile and of a report
--   (backend/packages/api/src/botblocker-profile-scoring.ts and botblocker-risk-event-scoring.ts, with the
--   schemas of the same names in contracts/src). Doubles are a record of their operations there, of which
--   nothing is assumed.
-- Network: IP addresses, allow lists and the destinations of callbacks. Network/Address.antt and
--   Network/Cidr.antt are the whole of backend/packages/api/src/ip-cidr.ts, for both families, and
--   Network/Callback.antt the whole of callback-ssrf-guard.ts, over a parser of URLs and a resolver of names.
-- Tokens: the signed tokens of interactions and of visitors' sessions. Tokens.antt has signPayload and
--   verifySignedPayload (backend/packages/api/src/security.ts), Tokens/Interaction.antt the tokens of
--   interaction-tokens.ts, under which the responses to verifications are submitted, and
--   Tokens/Visitor.antt those of botblocker-visitor-token.ts. JSON, base64url and the digest are
--   parameters there.
-- Gate: the gate in the page of a site (libraries/gate-core/src). Gate/States.antt has the states and
--   snapshots (states.ts, recommendation.ts), Gate/Decision.antt the check of a signed decision
--   (decision.ts), and Gate/Variables.antt and Gate/Controller.antt the controller (controller.ts): its
--   variables as one record, its effects as a list, and its methods in the parts between which another
--   call can run, since they await the server, the signature check and the launch of a challenge. A run
--   is any sequence of these parts. The verifier of signatures and the schemas of foreign values are arguments of the steps.
-- Signing: the signed artifacts of the bot gate (backend/packages/botblocker-signing/src). Signing/Canonical
--   has the text that is signed (backend/packages/contracts/src/botblocker-signing.ts), Signing/Keys.antt
--   the key ring (key-ring.ts), Signing/Artifacts.antt the signing and verification of artifacts and of
--   the clearance of a visitor (index.ts), and Signing/Replay.antt the consumption of nonces (replay.ts).
--   The cryptography of Node is a record of its operations, of which the round trip of a clearance assumes
--   that a signature verifies under its key, has 64 bytes and survives base64url; that the signed text
--   determines the claims assumes of JSON.stringify that texts end where they do. The store of nonces is
--   a parameter with what is documented of SET with NX and PX, and has a clock of its own.
-- Quota: the free monthly allowance that the creation of a verification asks for first
--   (backend/packages/api/src/usage-quota-service.ts).
-- Trunk: the rotation and failover of outbound trunks in the telephony agent
--   (apps/telephony-agent/src/trunk-pool.ts).
--
-- The verification service asks the state machine before each update; the telephony agent claims calls
-- through claimNextForNode, places them on a trunk that its pool picks, and reports back through
-- transition. Hosted sign-in runs beside it: its contact proofs are served by verifications.
--
-- Times are milliseconds as natural numbers, and each reading of a clock is an argument. Texts are lists
-- of UTF-16 code units. Sequence numbers and versions are naturals without a bound, where the source has
-- doubles, which are exact up to 2^53. Only the digits of a printed
-- amount need fuel: ten digits before the point, which are enough for every safe number of millionths.
-- Not modelled: the HTTP routes and the schemas of messages that only they read; the indexes of the
-- database other than those of the ledger; of the bot gate, policies and their signed releases, sessions,
-- ingestion and reputation; of the gate libraries, sensors, the lock of the page and the adapters of HTTP
-- frameworks; of hosted sign-in, its repositories and providers; accounts and projects; the front ends
-- and the adapters of providers.
pub mod Prelude
pub mod Accounting
pub mod Verification
pub mod Quota
pub mod Billing
pub mod BotGate
pub mod Auth
pub mod Trunk
pub mod Gate
pub mod Network
pub mod Tokens
pub mod Signing

-- ===== src/Lib.antt =====
-- Capibarco (PetMatch) is a set of Go services around the adoption of animals, under backend/. This
-- library models the core of seven of them. A profile of an animal is drafted and published by
-- the animal service; the feed service ranks and serves the published animals; a swipe on a
-- card is recorded by the matching service, which makes a match of a right swipe and announces both
-- through an outbox; a match opens a conversation of the chat service; the billing service takes
-- donations, and boosts and entitlements that donations pay for. The auth service registers users and
-- gives out the tokens that the other services ask for, and the notification service tells a profile
-- what the other services did.
--
-- Base: numbers, text, lists, tables and results that the parts share. A Go string is a list of code
--   points, `strings.TrimSpace` is `trim_space`, a value with an error is a `Result`, and an SQL table is the
--   list of its rows.
--   Base/Action has the methods that change a world and may fail, with rules for what they keep (Keeps), what
--   holds when they return (Returns) or fail (Raises), and the calls of a port that may go wrong (Ports).
-- Billing (backend/billing-service/internal): Domain for the package domain; Ports for the world
--   that a call reads and writes and for the environment that answers it; Store for
--   infrastructure/postgres; Resilience for breaker.go and retry.go; Service for service.go. Triple, Paid,
--   Session, Replay, Ledger, Atomic, Lifecycle and Validation hold proofs. Every call of a dependency is
--   numbered and the environment says what the call of each number answers, so that each
--   pattern of failures is one environment. A context is whether it carries a transaction, and a
--   COMMIT may take effect although its answer is an error. The retry loop recurses on the attempts that are left.
-- Feed (backend/feed-service/internal/feed/service.go): Types, Ranking for RankCandidates, Serving for the
--   filters and the page of GetFeed. The loop of RankCandidates runs on as much fuel as there are
--   candidates: a round that goes on takes one of them at least. The comparison of two total
--   scores, which are float64 sums over a map, is a parameter.
-- Animal (backend/animal-service/internal): Domain and Profile for domain/animal/model.go; Outside for the
--   ports and infra/postgres; Service for app/animal/service.go. Labels, Lifecycle, Reachable, Photos, Owner
--   and Refinement hold proofs. What the code takes of Go's packages strings and net/url is the record Go.
-- Matching (backend/matching-service/internal): Domain, Store and Service, and proofs in Outbox, Replay and
--   Archive. Transactions run one after another (the source asks for serialisable isolation in RecordSwipe and
--   locks the rows in ArchiveMatchesByAnimal), and one that fails leaves nothing behind.
-- Chat (backend/chat-service/internal/domain/chat/model.go): Domain, and proofs in Participants.
-- Auth (backend/auth-service/internal): Domain; Outside for the ports and the world; Store for
--   adapters/postgres; Tokens for usecase/token.go; Access, Service and Reset for usecase/auth.go. Stable,
--   Usecases, Session, Issue, Rotation, Reuse, Family, Detection, OneTime, Identity, Login, Registration and
--   Owner hold proofs. A method is an action of Base/Action: what it did before an error stays done. A
--   statement may be refused, or take effect and leave its answer unheard.
-- Notify (backend/notification-service/internal): Domain, Channels, Wording, Hub, Service and Handlers for
--   app/notification/service.go, Store for infra/postgres; Once, Session and Replay hold proofs.
--
-- Not modelled: transports, configuration, logging and tracing; the texts of errors; list queries and
-- their cursors; delivery of the outbox; concurrency, but for what a transaction guarantees; the
-- services for users and analytics, and the gateway.
pub mod Base
pub mod Billing
pub mod Feed
pub mod Animal
pub mod Matching
pub mod Chat
pub mod Auth
pub mod Notify

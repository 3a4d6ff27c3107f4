-- ===== src/Lib.antt =====
-- A model of the core of Alyx, a backend in Go (an HTTP server over SQLite): the parts that keep
-- state of their own and the decisions that other parts rely on.
--
-- A request passes the rate limiter (RateLimit, internal/server/ratelimit.go), which is asked for
-- the key of its client, and a login passes the brute force protection (BruteForce,
-- internal/server/bruteforce.go). A bearer token is refused when it is on the blacklist
-- (Blacklist, internal/auth/blacklist.go). A function that runs in a container calls back with a
-- token of the token store (TokenStore, internal/functions/token.go). Every request is noted in
-- the request log (RequestLog, internal/server/requestlog/store.go), from which the admin
-- interface lists. Clients hold database transactions open by id (Transactions,
-- internal/transactions/manager.go). Files are fetched by signed URLs (SignedUrl,
-- internal/storage/signed.go) and sent in resumable chunks (Tus, internal/storage/tus.go and
-- tus_store.go), whose type is matched against the types of the bucket (Mime, matchesMimeType of
-- internal/storage/service.go). A migration is planned from the differences of two schemas
-- (Schema, internal/schema/types.go and differ.go). A webhook is handed to its function once its
-- signature is checked (Webhooks, internal/webhooks/verification.go and handler.go); a delivery
-- that failed is queued and retried until it succeeds or becomes a dead letter (Webhooks.Retry,
-- internal/webhooks/retry.go). The input for a document is validated against the fields of its
-- collection (Validation, internal/database/validate.go), and documents are read and written by
-- statements that builders make (Query, internal/database/query.go). Clients subscribe to
-- collections with the broker (Broker, internal/realtime/broker.go and client.go), which takes
-- the changes of documents from the change detector (Detector, internal/realtime/detector.go). A
-- change of a document is offered to the subscriptions of its collection (Subscriptions,
-- internal/realtime/index.go), and becomes a delta for each whose documents it changes (Deltas,
-- internal/realtime/broker.go); the filters of a subscription are those of Query in its snapshot.
--
-- Each of these files declares the state as a record and one function per operation, under the
-- source's names in snake case: Allow is RateLimit.allow, ValidateSignedURL is
-- SignedUrl.validate_signed_url. The modules below a file hold the proofs, named for what they
-- prove; its Tests hold runs at concrete inputs and the theorems applied to such inputs. Shared
-- are Prelude (numbers, tests and lists), Prelude/Int (Go's int), Bytes (strings where the
-- program looks inside them) and Map (Go's maps as association lists, with their laws).
--
-- Time is a number of nanoseconds and an argument of the operation that reads the clock, once for
-- each reading. A method that holds a lock is one step, and so is a round of a cleanup loop;
-- concurrent use is a run, the list of these steps in the order in which they take the lock. The
-- methods of Transactions call the database outside the lock, and their parts are steps of their
-- own. A test t.Sub(u) > w is written u + w < t, as differences of numbers stop at 0. All
-- recursion is on the structure of a list, a map or a count of rounds, so that no function needs
-- fuel; the rounds of the retry worker that find work are counted by a theorem.
--
-- Code outside the repository is a parameter or a flag: HMAC-SHA256, base64 and the RFC 3339
-- format (SignedUrl.Primitives), HMAC and hexadecimal (Webhooks.Primitives), both with the laws
-- the code relies on, the random bytes of a token, the detection of a MIME type and checksums
-- (Tus.Config), how fmt prints values (Query.Format), regular expressions and floating-point
-- numbers (Validation.Regexes and Validation.Floats), the rules engine and JSON (arguments of
-- Deltas), the answer of an endpoint (Webhooks.Retry.Reply), and whether a call of the database,
-- the file system or a storage backend fails (Tus.Faults and the Boolean arguments of
-- Transactions).
--
-- Not modelled: the HTTP handlers and middleware but for the parameters of the log listing, the
-- client's key, the operation of a signed URL and the webhook handler; what SQLite does with a
-- statement; the messages on a connection; the rules engine, the functions runtime, the
-- scheduler, hooks, authentication, the storage backends and deployment; the command line, code
-- generation and the admin interface, which are glue, input and output. Numbers are unbounded:
-- the source's counts, sizes and instants stay far below the bounds of its 64-bit integers; only
-- the delay of a retry, which may pass them, wraps around as in the source.
pub mod Prelude
pub mod Bytes
pub mod Map
pub mod RateLimit
pub mod BruteForce
pub mod Blacklist
pub mod TokenStore
pub mod RequestLog
pub mod Transactions
pub mod SignedUrl
pub mod Mime
pub mod Tus
pub mod Schema
pub mod Subscriptions
pub mod Webhooks
pub mod Query
pub mod Deltas
pub mod Broker
pub mod Detector
pub mod Validation

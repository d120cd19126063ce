-- ===== src/Lib.antt =====
-- echopay: a payment server, from sign-in to settlement, and what it promises.
--
-- The program. A user signs in with a one-time password (internal/auth) and gets a token of a
-- device session, which a middleware (internal/http) asks for on each request until the session
-- is revoked or the account is locked. A user saves a card as a mandate (internal/mandates). A
-- receiver issues a token for an amount (internal/tokens); a sender claims it and pays
-- (internal/payments): the sender's limits are checked (internal/risk), Paystack charges the
-- sender and transfers the money to the receiver, a pair of entries goes into the ledger
-- (internal/ledger), and the payment and its token are marked settled. With an undo window the
-- charge runs at once and the transfer when the window has elapsed; the sender may undo until
-- then. Webhooks of Paystack and a reconciler (internal/jobs) finish what was left over. An
-- audit trail (internal/audit) and pushes to the devices (internal/push) go along. Amounts are
-- written by internal/money. The statements of SQL are in internal/store.
--
-- How it is modelled. A service call is an action (Action): from an environment and a world it
-- gives a result or an error, and the next world. The world (World) is the tables, the timers of
-- held payments, and logs of the requests to Paystack and of the pushes. The environment is what
-- the program does not implement: the clock, which database calls fail, fresh UUIDs and random
-- bytes, the answers of Paystack and of the push service, bcrypt, and the encoding and signing
-- of JWTs (Codec, whose laws are the hypothesis IsCodec). It is asked with a count of turns, so
-- that each answer may differ. No theorem assumes anything of it but what its hypotheses say.
-- What is written before a failure stays written, since the program opens no transaction. One
-- statement of SQL is one atomic step.
--
-- Which file models what.
-- - Common: the Boolean tests, integers, decimal numerals, lists, the comparison of texts
--   without regard to case, and what an UPDATE leaves in a table, which the others share.
-- - Store.Models, Store.Payments, Store.Tokens, Store.Users, Store.Limits, Store.Records,
--   Store.Accounts, Store.Mandates, Store.Otp, Store.Devices, Store.PushTokens, Store.Trusted:
--   internal/store, and the constraints of migrations/.
-- - Paystack: the requests and answers of internal/paystack/client.go.
-- - Money: internal/money/money.go. Money.Commas is about withCommas, Money.Naira about
--   ToNairaString and FromNaira.
-- - Auth: internal/auth/otp.go and service.go; check_otp and sign_in are the two halves of
--   VerifyOTP. Auth.Jwt: internal/auth/jwt.go.
-- - Http: internal/http/auth_middleware.go (Http.Auth), devices.go (Http.Devices) and me.go
--   (Http.Me); behind_auth is a route behind the middleware.
-- - Http.RateLimit: internal/http/rate_limit.go, with Redis as a parameter;
--   Http.RateLimit.Window has the laws of Redis (IsRedis) and the theorem.
-- - Http.Webhooks: internal/http/webhooks.go, with the signature of
--   internal/paystack/webhook.go.
-- - Kyc: internal/kyc/service.go, with the identity provider as a parameter. Kyc.Calendar is
--   time.AddDate.
-- - Mandates: internal/mandates/service.go.
-- - Payments.Handler, Mandates.Handler, Tokens.Handler, Risk.Handler, Push.Handler,
--   Audit.Handler, Auth.Handler: the pages, handler.go of each package; a page is named after
--   its handler (create_page is create).
-- - Audit, Push, Ledger, Tokens, Risk.Trusted, Risk.Limits: the services of these names; Record
--   is record_entry and record_event, EffectiveCap is effective_cap, SetLimits is set_limits,
--   and so on.
-- - Payments: internal/payments/service.go and webhook.go. Checks has idempotentReturn,
--   validatedMandate and enforceLimits; Legs has charge, transfer and fail; Orchestrate, Hold,
--   Create, Undo, Webhook and Activity have the rest.
-- - Jobs.Reconciler: internal/jobs/reconciler.go.
-- - Action: the combinators of calls; Action.Steps proves what holds between the world before
--   and after, Action.Yields what a returned value satisfies, Action.Ends what a call that
--   returned has gone through.
-- - System: the running server as a list of events, each a whole call of the payment services.
-- - Conserves: each service walked once, for any relation of worlds that the single writes keep;
--   History and Validity give the relations. Quiet: the actions that move no money.
-- - Tests: a small database, and each property at a run of it.
--
-- Representation. A UUID is a number; a time is a number of nanoseconds from Go's zero time; an
-- amount is a natural number where the database has CHECK (amount > 0), and an integer where a
-- caller passes it. The int64 arithmetic of the daily limit and of money keeps its overflow. A
-- status column is a data type. A text that the program takes apart (a bearer token, a code, an
-- amount) is a list of bytes, any other a string. A Go loop over rows is structural recursion on
-- the list, so no fuel is needed and every action returns; the decimal numeral of a number and
-- its thousands take as many rounds as the number, which is enough.
--
-- Not modelled: the routing of HTTP, the binding of bodies and the rendering of JSON, the cache
-- of tokens in Redis (whose answers the code ignores), logging, configuration, the lookup at
-- YouVerify and the two handlers that take texts apart as Unicode or as dates (the request of a
-- one-time password and the submission of a BVN), and calls that overlap: in System the calls
-- follow each other; Store.Races is about the two statements that decide a race of an undo with
-- a release.
pub mod Codec
pub mod Common
pub mod Store
pub mod Paystack
pub mod World
pub mod Action
pub mod Audit
pub mod Push
pub mod Money
pub mod Mandates
pub mod Ledger
pub mod Tokens
pub mod Risk
pub mod Payments
pub mod Jobs
pub mod Http
pub mod Kyc
pub mod History
pub mod Auth
pub mod Conserves
pub mod System
pub mod Validity
pub mod Quiet
pub mod Tests

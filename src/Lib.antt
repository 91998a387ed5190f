-- ===== src/Lib.antt =====
-- ApptRemind: appointment booking for small businesses, as Go services around PostgreSQL.
--
-- The parts, and the files that model them:
--   services/booking-service takes bookings and cancels them. Booking/Create and Booking/Cancel are
--   the handlers Create and Cancel of internal/handlers/booking.go, from the request (Booking/Request)
--   to the commit; Booking/Store has the statements of internal/storage and internal/outbox on the
--   rows of Booking/Model, with the exclusion constraint and the keys of migrations/. A step of a
--   handler has the name of what it does: check_key is the block on the Idempotency-Key header,
--   check_availability, check_limit, place and announce are the blocks after it.
--   Booking/Offer is the handler Slots, Booking/Listing the handler List.
--   Tx is a transaction: after a failed statement PostgreSQL refuses the later ones and rolls back.
--   Availability is what booking makes of the scheduling provider's answer (provider_grpc.go,
--   validateBookingWithinAvailability and windowsFromConfig of booking.go).
--   Slots is internal/availability/slots.go, the grid of free start times.
--   services/business-service answers for the working day. Schedule is GetAvailabilityConfig of
--   internal/grpcserver/server.go, Schedule/Store its queries, TimeOff its subtractBlocks.
--   Schedule/Admin and Schedule/Entries are the handlers of internal/handlers/http.go that set the
--   working hours and the time off.
--   services/billing-service keeps the subscriptions. Billing is LimitsForTier of
--   internal/entitlements/limits.go and the Service of internal/subscriptions/service.go.
--   Billing/Hooks has the webhooks of internal/handlers, Billing/Checkout and Billing/Return the
--   checkout, the cancellation and the public return page, Billing/Books their rows and statements.
--   services/auth-service keeps the users and their refresh tokens: Auth has the statements,
--   Auth/Handlers the handlers Register, Login, Refresh and Logout of internal/handlers/auth.go, and
--   Auth/Runs the requests one after another.
--   services/scheduler-service sends the reminders that are due: Scheduler is the worker of
--   internal/jobs and the consumer's handler in cmd/scheduler-service/main.go.
--   services/gateway-service stands before them: Gateway is requireAuth and requireRole of
--   cmd/gateway-service/main.go, Gateway/Limit the limiter of libs/httpx/ratelimit.go.
--   Delivery is the way of an event from an outbox through Kafka to a service's handler:
--   internal/outbox/publisher.go of booking-service, internal/consumer of scheduler-service and
--   libs/kafkax; the other services have copies of them.
--   Tx/Rules and Tx/Kept have the rules by which the proofs go through a handler's steps.
--   Base has the notation and the lemmas that all parts share.
-- Booking calls Schedule's answer through Availability: Availability/Blocked puts the two together.
--
-- Numbers and bounds: an instant is the number of nanoseconds since Go's zero time, so instants before
-- it are not represented, and the rounding of a TIMESTAMPTZ to microseconds is not modelled. A Go
-- integer that can be negative is a ℤ. The loop of AvailableSlots runs on fuel, one round more than the
-- window has nanoseconds, which is enough since each step is at least one.
--
-- What is a parameter: parsing and printing of times and dates, the time zones and the first instant of
-- a month or a day, the scheduling and policy providers, the id and time that the database gives a
-- row, the hashes of passwords and tokens, the signing of tokens and its check, Stripe's API and its
-- JSON, what Kafka does with a message, and which statements the database refuses (an oracle, so every
-- place of a failure is covered). json.Marshal of the maps and structs of texts does not fail.
--
-- What is not modelled: two handlers at once, metrics, logs and trace contexts, the copies of the
-- request's ids in the scheduling answer, the default profile row that a read inserts, the rotation of
-- the signing keys and the audit list of auth-service, the reconciliation of billing-service, the
-- proxies and the pages of the gateway, and the other services (notification, analytics).
pub mod Base
pub mod Tx
pub mod Slots
pub mod TimeOff
pub mod Schedule
pub mod Availability
pub mod Billing
pub mod Booking
pub mod Auth
pub mod Gateway
pub mod Delivery
pub mod Scheduler

-- ===== src/Lib.antt =====
-- A ticket box for concerts (backend/src): the NestJS services that reserve, sell, issue and check
-- tickets, the worker that runs their jobs, the scanner app of the gate staff (frontend/checkin-pwa)
-- and the way of a customer to the sale (frontend/customer-web).
--
-- Parts. OrderService takes an order: it checks the items, seeds Redis, reserves each item by a Lua
-- script, writes the order, counts the reservation in the database and asks for a payment address.
-- A webhook, a cron job, a cancellation or a delayed job ends the order; a payment issues tickets
-- with signed QR tokens, which CheckinService checks at the gates, online or by an upload of the
-- scans that the app has queued. ConcertService and TicketTypeService change what is sold; a token
-- bucket in Redis guards the public handlers.
--
-- Files.
-- - Prelude and its children: shared names, the tactics' tests, integers and lists over the native
--   numbers, tables keyed by numbers, and texts as code points.
-- - Redis: the keys stock, user_limit and reservation with the two scripts of
--   backend/src/modules/redis/scripts (reserve_ticket, release_reservation), as RedisService calls
--   them. Redis/Laws is about single calls, Redis/Trace about histories of calls.
-- - Store, World: the rows of backend/prisma/schema.prisma, and the state that the handlers share. An
--   action gives its result and the new state, also where it throws.
-- - Order: backend/src/modules/order/order.service.ts. Order/Validate and Order/Create are
--   createOrder, Order/Close is cancelOrder and expireOrder, Order/Queries the queries. Order/Reserve
--   is about the reservation stage, Order/Ending and Order/Race about how orders end, Order/Views
--   about the queries.
-- - Payment: backend/src/modules/payment. Payment/Url is createPaymentUrl, Payment/Settle the
--   settlement and the failure of a payment, Payment/Webhook handleMockWebhook, Payment/Cron the job
--   for stuck orders, Payment/Request createPayment and getPaymentStatus. Payment/Outcome is
--   about every webhook, in the terms of Payment/Answers and over what happens to each row in Payment/Effects, Payment/Presence,
--   Payment/Kept and Payment/Rows, and Payment/Reuse about the address.
-- - Ticket: Ticket/Token is generateQrToken and the tickets of an order, Ticket/Issue the worker
--   backend/src/worker/processors/ticket-issue.processor.ts, Ticket/Qr the QR payload,
--   Ticket/Queries backend/src/modules/ticket/ticket.service.ts. Ticket/Admission follows a ticket
--   from its issue to the gate.
-- - Gate: Gate/Load is findLeastLoadedGate, Gate/Manage the changes of gates in
--   backend/src/modules/gate/gate.service.ts, Gate/Rebalance its list and rebalance. Gate/Least,
--   Gate/Signed and Gate/Shares are about them.
-- - Checkin: backend/src/modules/checkin/checkin.service.ts. Checkin/Desk has the rows and the log,
--   Checkin/Verify the online scan, Checkin/Sync the upload. Checkin/Once, Checkin/Effect,
--   Checkin/History, Checkin/Upload and Checkin/Answers are about scans, one and many, and
--   Checkin/Spec is the abstract machine that they refine.
-- - Scanner: frontend/checkin-pwa/src/hooks/useOfflineCheckin.ts (handleScan, triggerSync) against the
--   desk of Checkin. Scanner/Idb is frontend/checkin-pwa/src/lib/idb.ts, Scanner/Parse the app's
--   parser of QR payloads. Scanner/Guard, Scanner/Logged and Scanner/Drain are about the queue,
--   Scanner/Shown about the codes that customers are shown.
-- - TicketTypes: backend/src/modules/ticket-type/ticket-type.service.ts, with its lists in
--   TicketTypes/Listing. TicketTypes/Names and TicketTypes/Edit are about the changes.
-- - Concerts: the queries and the cache of backend/src/modules/concert/concert.service.ts,
--   Concerts/Manage its changes, Concerts/Reminder
--   backend/src/modules/notification/reminder.service.ts. Concerts/Fresh, Concerts/Paging and
--   Concerts/Removal are about them.
-- - Seatmap: backend/src/modules/seatmap/seatmap.service.ts, with Seatmap/Broadcast about it.
-- - RateLimit: backend/src/modules/rate-limit, with scripts/token-bucket.lua. RateLimit/Burst and
--   RateLimit/Refusal are about requests, many and refused.
-- - Mailing: backend/src/worker/processors/notification.processor.ts. Mailing/Batches is about the loop
--   over a concert's ticket holders.
-- - WaitingRoom: frontend/customer-web/lib/mock-waiting-room.ts and its route, with WaitingRoom/Queue
--   and WaitingRoom/Abandoned about histories of visitors. Purchase is the customer's side: the storage
--   and the guard of the purchase pages (lib/waiting-room-access.ts, hooks/usePurchaseAccess.ts),
--   Purchase/Page the waiting page (hooks/useWaitingRoom.ts), Purchase/Admission about both.
-- - Checkout: frontend/customer-web/lib/create-order-retry.ts and lib/idempotency.ts, with
--   Checkout/Once about them and the backend's interceptor. Checkout/Page is the page's
--   components/checkout/CheckoutPage.tsx, with Checkout/Again about two clicks.
-- - SeatPicker: the choice of a zone in frontend/customer-web/hooks/useSeatMap.ts, SeatPicker/Filters
--   its lists, SeatPicker/Usage lib/user-ticket-usage.ts. SeatPicker/Cover and SeatPicker/Held are
--   about them.
-- - Dashboard: backend/src/modules/admin/admin.service.ts, with Dashboard/Revenue about it.
-- - Uploads: backend/src/modules/uploads/uploads.service.ts, with Uploads/Outcome about it.
--   Uploads/Bio is backend/src/worker/processors/ai-bio.processor.ts.
-- - Accounts: backend/src/modules/auth/auth.service.ts, with Accounts/Login about it.
--   Accounts/Search is backend/src/modules/users/users.service.ts.
-- - Guests: backend/src/worker/processors/csv-import.processor.ts, with the parser
--   backend/src/worker/services/csv-parse.service.ts in Guests/Csv. Guests/Again is about imports.
-- - Idempotency: backend/src/common/interceptors/idempotency.interceptor.ts and
--   backend/src/modules/idempotency/idempotency.service.ts, with Idempotency/Replay about them.
--   Idempotency/Body is the normal form of a body.
-- - System: every handler of the sale as an event of a history. System/Capacity and System/Step are
--   about the quantities, System/Rows, System/Leaves and System/Final about the orders' rows.
-- - Tests: the theorems at concrete data.
--
-- Conventions. Identifiers that are only compared are numbers; texts that are hashed, signed or
-- split are lists of code points. Times are milliseconds, read once per handler. Quantities that
-- the code decrements without a test are integers; the others are natural numbers, and the machine
-- bounds of the columns are not modelled. Loops run over lists, but for the reminder's loop over
-- batches, which takes fuel: one round for each hundred users and one more, which is proved to be
-- enough. SHA-256, HMAC, random ids, the text of a number, the circuit breaker's decision, the
-- database's order of names, bcrypt, the signing of a login and the reading of a CSV file are
-- parameters. A transaction is one step. Rows with the same start come in
-- an order that each query may choose. The handlers of a history run one after another; the script
-- calls of Redis/Trace interleave freely.
--
-- The rate limiter counts in sixtieths of a token instead of floating point. The scanner app's
-- database always works. BullMQ drops an added job whose id is taken.
--
-- Not modelled: the texts of mails, the PDF reader, the language model and the pages of the web
-- clients but for what is named above, which are library calls and presentation; the sending of
-- broadcasts and mails, the logs, and the failures of Redis in the caches and, but for the calls of a
-- webhook after its commit, in the handlers of the sale; the address that the rate limiter reads off a
-- request; the seeds, which are data.
pub mod Prelude
pub mod Redis
pub mod Store
pub mod World
pub mod Gate
pub mod Ticket
pub mod Payment
pub mod RateLimit
pub mod Order
pub mod TicketTypes
pub mod Seatmap
pub mod Concerts
pub mod Mailing
pub mod WaitingRoom
pub mod Purchase
pub mod SeatPicker
pub mod Dashboard
pub mod Uploads
pub mod Checkout
pub mod Accounts
pub mod Guests
pub mod Idempotency
pub mod System
pub mod Checkin
pub mod Scanner
pub mod Tests

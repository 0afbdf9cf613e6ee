-- ===== src/Lib.antt =====
-- The booking and payment core of the Voyagi backend (apps/backend/src), with its theorems.
--
-- The program is a NestJS server over PostgreSQL. A service checks the caller's permissions, opens
-- a transaction and runs the statements of a repository; bookings hold seats of a trip for a
-- while, payments settle bookings, and a settled payment earns a commission for an agent. The
-- parts and their files:
--
--   Prelude      Boolean tests, lists, and tables with the clauses of queries.
--   Identity     modules/identity and modules/authorization: identifiers (Identifier, and Numeral
--                for the decimal numerals that they are held against), the catalog of permissions
--                and the roles (Roles), memberships with the branches they reach
--                (Access: resolveBranchAccess, resolveEntitlements, canExercisePermissionInBranch,
--                effectivePermissionsForBranch), the scopes of queries (Scope: the accessScope of
--                the services, readableBranchScope of modules/branches).
--   Pagination   common/pagination/pagination.ts.
--   Store        the enums, the rows of the tables (Rows; Network for companies, routes, buses,
--                staff and trips), the database, and the monad of a call: a function from a
--                database to a result and a database. `transaction` is
--                infrastructure/database/transaction.manager.ts: what was written before a throw
--                is rolled back. Keeps and Atomic hold the rules for properties of calls, Growth
--                those for a table that only grows or changes in place.
--   Audit        modules/audit: appending an entry.
--   Commissions  modules/commissions: createEligible and applyFullRefund.
--   Payments     modules/payments: the state machine (Machine), the statements (Repository), the
--                service (Service), with every call of it as a value in Calls.
--   Bookings     modules/bookings: creating a booking (Inputs for validateCreate and
--                normalizeInput, Idempotency and Inserts for the statements, Creation for
--                createPassengerBooking and createAgentBooking), cancelling and expiring
--                (Transitions, Repository, Service).
--   Tickets      modules/tickets: the rows and views (Types), the statements (Repository), the
--                service (Service): issuing, reading, scanning, checking in and revoking.
--   Trips        modules/trips: the actions (Transitions), the statements (Repository), the service
--                (Service): creating, editing, starting, completing and cancelling.
--   System       the calls of bookings, payments, tickets and trips in any order on one database:
--                which statement leaves which table alone (Apart), what keeps the whole sound
--                (Preserving, Soundness), and the rollback of a call that throws (Rollback).
--
-- A function of the source keeps its name in snake case: `createPassengerPayment` of
-- modules/payments/payments.service.ts is `create_passenger_payment`. A statement of a repository
-- is a function on the database with its WHERE clause as a Boolean test on a row, and returns the
-- error that a constraint or a trigger of supabase/migrations raises. The environment of a service
-- (the providers, the generators of references, tokens and ticket numbers, the hashes, the clocks,
-- whether an audit writer is bound) is a record, and nothing is assumed of it.
--
-- Texts that the code only stores and compares are numbers, as are times, in seconds; amounts are
-- in hundredths. Texts that it parses are lists of character codes, and a text that is parsed and
-- stored (a seat) is stored as the number that its codes spell. Three attempts to insert a payment or
-- a booking are a recursion on the attempts that are left. The offset of a page is a product of doubles,
-- rounded to 53 bits: 1000 halvings find the exponent of any product of a double and a page size, and
-- Pagination/Bounds has the lemma that a halving for each bit above 53 is enough. All other loops run
-- over lists. Trips
-- depart later than a boarding window after the origin of time.
--
-- A transaction runs alone, so a row lock is no step of its own. Not modelled: the HTTP layer,
-- configuration, logging and the connection pool, which are glue and I/O; the queries that list
-- bookings, payments and trips; availability, seat layouts, the service of maintenance and the
-- metadata of audit entries.
pub mod Prelude
pub mod Identity
pub mod Pagination
pub mod Store
pub mod Tickets
pub mod Trips
pub mod System
pub mod Audit
pub mod Commissions
pub mod Payments
pub mod Bookings

-- ===== src/Lib.antt =====
-- Verification of the booking lifecycle of marlo-scheduling: how a booking is created durably on
-- the store of the service and on the host's Google calendar, while workers race, calendar calls
-- fail without a clear answer, and the answer of a COMMIT may be lost.
--
-- The program's parts and the files that model them:
--   lib/booking/rows.ts              Rows, Rows/Types, Rows/Order: the row and its predicates
--                                    (isStaleOp is is_stale_op, retainedFrom is retained_from, ...)
--   lib/booking/store.ts,
--   lib/booking/memory-store.ts      Store/Types, Store/Ledger (the methods of the store), Store/Tx
--                                    (the methods of a locked transaction and its queued writes)
--   lib/google/calendar.ts           Google: the port, a record of functions over any state
--   lib/google/errors.ts             Google/Errors: the classification of what a call threw
--   lib/google/mock-calendar.ts      Google/Mock (the calls), Google/Control (the controls)
--   lib/notify/ledger.ts             Notify: the summary of deliveries
--   lib/booking/errors.ts            Lifecycle/Errors
--   lib/booking/ops.ts               Lifecycle/World (the worker monad), Lifecycle/Ops
--   lib/booking/create-identity.ts   Lifecycle/Identity
--   lib/booking/envelope.ts          Lifecycle/Envelope
--   lib/booking/settle.ts            Lifecycle/Settle
--   lib/booking/superseded.ts        Lifecycle/Superseded
--   lib/booking/reap.ts              Lifecycle/Reap
--   lib/booking/occupancy.ts         Lifecycle/Busy
--   lib/booking/create.ts            Lifecycle/Create and its children: L0 and T1 in Create/T1, T2
--                                    in Create/T2, the insert in Create/Insert, the answers in
--                                    Create/Answer, the whole handler in Create
--   lib/booking/cancel.ts            Lifecycle/Cancel: T1 and the replacement of an inherited op in
--                                    Cancel/T1, T2 and T2' in Cancel/T2, the deletes in
--                                    Cancel/Calendar, the whole handler in Cancel
--   lib/booking/reschedule.ts        Lifecycle/Reschedule: T1 in Reschedule/T1, T2 with its
--                                    compensation in Reschedule/T2, the patch and the fallback
--                                    insert in Reschedule/Calendar, the stale op in Reschedule/Stale
--   lib/booking/repair.ts            Lifecycle/Repair, its transactions in Repair/T2
--   lib/availability/slots.ts        Slots: the loops of listAvailableTimes over given windows
--   lib/availability/single-use-link.ts
--                                    Links: lookup and consumption of a link
-- The theorems stand beside the component (Rows/Fair, Store/Claims, ...) and, where they are about
-- a whole create, or the transactions of several handlers, in Booking; Tests has concrete runs.
--
-- How the parts interact. A create looks its key up under the host's lock (L0), reads the calendar
-- (R0), inserts the row under the lock (T1), inserts the event, and finalizes the row under the
-- lock (T2). A cancel and a reschedule are two-phase in the same way: they record their op under the
-- lock, change the calendar and complete under the lock; one that finds a stale op takes it over
-- first. The model is the same composition of the same functions: a worker is a function of a
-- World (store, calendar, clock, supply of ids, turns of the others), an error is a value, and the
-- `do` blocks follow the `await`s. Before each of its calls of the store a worker takes a turn: any
-- change that others have committed by then, the time that has passed, and the fate of its commit.
--
-- Representation. Ids and free texts are only compared and copied, so they are numbers (Key; 0 is
-- the empty text). Instants are epoch milliseconds. A Map with a joined text as its key is a list
-- of entries with the parts as the key. Numbers do not wrap: the source's are generations and
-- times, far below 2 ^ 53. All definitions are total by structural recursion; the loop over the
-- starts of a window runs on fuel, one unit for each millisecond of the window and one more, which
-- is enough since each round moves the start by at least 1. A cancel and a reschedule re-enter
-- themselves at most once: the passes that are left are an argument, and the source's third pass
-- is the clause without one.
--
-- Parameters: the calendar client (the memory calendar is one), the letters of a valid event id, the
-- hook that completes an inherited op, the hash of a create (fingerprint), the random ids (uuid), the
-- gate, the notification, the finalize hook and the trimming of a text are functions that a
-- definition is given.
--
-- Not modelled: log lines and test hooks, which do not change the state; the error texts of an
-- envelope; the calendar insert that is held with the answer `defer`; the expansion of schedules into windows; the Postgres
-- store, routes, pages, e-mail and webhooks.
pub mod Booking
pub mod Google
pub mod Lifecycle
pub mod Links
pub mod Notify
pub mod Prelude
pub mod Rows
pub mod Slots
pub mod Store
pub mod Tests

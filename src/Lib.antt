-- ===== src/Lib.antt =====
-- InsightAdFlow forwards messages between Telegram chats and posts broadcasts to groups. This library
-- models the part of the backend that decides what is sent, when, and what becomes of it.
--
-- The program's parts and their files (paths below backend/app/):
--   Reasons      domain/reasons.py: the reason codes and their sentences (`describe`).
--   Models       db/models.py, adapters/base.py, config.py: enumerations, rows, settings, the adapter's
--                interface, and the database as one record of tables.
--   Text         the string operations of Python that the code calls.
--   Errors       adapters/errors.py: `classify_error` and its tables.
--   Filters      domain/filters.py: `evaluate`.
--   Leases       what repositories/jobs.py and repositories/broadcasts.py share: claiming, renewing,
--                reclaiming, cancelling and requeueing rows, on any table with the columns `Work`.
--   Jobs         repositories/jobs.py: the store of forwarding jobs.
--   Broadcasts   repositories/broadcasts.py: the store of broadcasts and their targets.
--   Events       what repositories/events.py, admins.py and chats.py write.
--   Safety       services/safety.py: rules and connections that pause themselves.
--   Users        services/users.py: suspension and reinstatement.
--   Delivery     services/delivery.py: `execute_job` and its failure handling.
--   Posting      services/broadcast.py: queueing, cancelling and retrying a broadcast, `execute_target`,
--                and `settle`, which ends a round.
--   Keys         domain/idempotency.py: the idempotency key and the random id of a send.
--   Dispatch     services/dispatch.py: from an incoming message to the jobs for it, with the queries of
--                repositories/rules.py and repositories/chats.py that it makes.
--   Rules        services/rules.py and what it writes through repositories/rules.py: validating, creating,
--                editing, starting and stopping a rule.
--   Replies      services/autoreply.py and repositories/autoreply.py: the one automatic answer to a private
--                message, and the slots that keep it to one in a cooldown.
--   Worker       worker.py: claiming within the limits of a connection, running a job and a target, and in
--                Worker/Control the control tasks with their queue of repositories/jobs.py.
--   Scheduler    scheduler.py: the passes that reclaim, start scheduled broadcasts, and purge.
--   RateLimit    security/ratelimit.py: the fixed-window counter.
--   MessageLinks domain/message_links.py: links to a chat and to a message.
--   AccessRequests  repositories/access_requests.py: who asked for access, and what was decided.
--   Samples      a small database. Examples, BroadcastExamples, ReplyExamples, IntakeExamples,
--                WorkerExamples and EdgeExamples apply the theorems to it.
--
-- How they interact: Dispatch gives each message to the rules that Rules has stored, and queues a job
-- for each destination under a key of Keys, which Jobs stores once. The Worker claims due rows through
-- Jobs and Broadcasts, and gives each to Delivery or Posting. Those check the owner (Users), the
-- connection, the rule or the broadcast, and the adapter's access check, make at most one posting call,
-- and write the row back. A failure goes through Errors, and may pause a rule or a connection through
-- Safety, which cancels what is queued. Events records what happened. The Scheduler gives back expired
-- leases and starts broadcasts whose time has come.
-- Replies answers beside all this, and takes a slot before it sends.
--
-- How state corresponds: `Database` is a record of lists of rows. A function of the source that takes a
-- session takes and returns a `Database`; a bulk UPDATE is `update_where`, and a flush of a changed
-- object is a `put_` function, which replaces the row of its primary key. The posting calls made so
-- far are kept in `sends`, in their order, and the calls of `archive.store_round` in `archived`. The
-- functions on rows of the repositories that take an object (`finish`, `reschedule`) return the new
-- row, and the caller puts it back.
--
-- Numbers: times are microseconds, the resolution of Python's datetime, so the bounds of the code are
-- exact; seconds and milliseconds are multiplied out. `estimated_duration_ms` multiplies where the
-- source divides by 1000 in floating point, so a rounding of the last bit is not modelled. Python's
-- integers are unbounded, and so are these. The digits of a number n are made with fuel n + 1, more than
-- there are digits. The scheduler's loop of passes takes their number as an argument: one pass
-- takes two hundred expired rows of a table. Every other loop of the modelled code goes over a list.
--
-- Parameters: the adapter (`TelegramAdapter`) answers each call by a function, the random number
-- generator is a function `uniform` of its bound, the clock is the argument `now`, the rows that other
-- transactions hold (SKIP LOCKED) are a predicate `locked`, Unicode's tables are a record, as are SHA-256
-- and the text of a UUID (`Library`), the ids that uuid4 draws are a function of the number of rows, the
-- Redis client is a record of the commands that are called, and the work of a control task, which calls
-- Telegram, is a function on the database.
--
-- Not modelled: logging, the text of alerts, audit rows, the HTTP interface, the control panel bot,
-- the Telegram client libraries, migrations, the archive's rendering, the loops of the worker that
-- sleep, its pacing and heartbeats, the scheduler's health pass, the pacing bucket, connections and
-- their synchronisation, and the parsing of links and times. A commit in the middle of a function and
-- a crash between two commits are not modelled either: an operation is one step. What an adapter
-- raises here is always caught by `except Exception`: the cancellation of a task while a call is under
-- way, which `classify_error` knows and that clause lets pass, is not modelled. The entities of a
-- broadcast's text are typed, so the path on which their stored form cannot be read is left out.
pub mod Prelude
pub mod Reasons
pub mod Models
pub mod Text
pub mod Errors
pub mod Leases
pub mod Jobs
pub mod Events
pub mod Broadcasts
pub mod Safety
pub mod Filters
pub mod Users
pub mod Delivery
pub mod Posting
pub mod Keys
pub mod Dispatch
pub mod Rules
pub mod Replies
pub mod Worker
pub mod Scheduler
pub mod RateLimit
pub mod MessageLinks
pub mod AccessRequests
pub mod Samples
pub mod Examples
pub mod BroadcastExamples
pub mod ReplyExamples
pub mod IntakeExamples
pub mod WorkerExamples
pub mod EdgeExamples

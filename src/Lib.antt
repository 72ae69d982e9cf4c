-- ===== src/Lib.antt =====
-- A verification library for the mitup Telegram bot, which lets people set up meetings, share
-- them as cards in chats and join or leave them by a tap.
--
-- How the parts work together. A tap on a card passes a guard, which decides who may act on the
-- meeting; the handler then works on the meeting under its row lock and changes the list of
-- participants, whose capacity follows from the owner's supporter tier. Tiers are bought on
-- Patreon: a consent is parked as a pending link, which a Telegram account claims and confirms.
-- Updates of one user and chat are processed one at a time, and a tap carries its button's data in
-- a short text that the handler's declaration matches and parses.
-- Changes of a meeting redraw its cards by jobs in a queue, which merges those of one meeting.
-- Recurrent jobs send broadcasts to the members, expire what is finished, and mark the users who
-- can no longer be reached as departed.
--
-- Which file models what, with paths from the repository's root:
--   Base: Boolean tests, lists and counts that all parts share.
--   Supporter, Supporter/Lifecycle: libs/core/mitup_bot/supporter.py, limits.py and lifecycle.py,
--     and apps/events/mitup_bot/events/lifecycle_queries.py.
--   Messages: libs/data/mitup_bot/models/messages.py, and the fields of a Telegram update that the
--     code reads.
--   Meeting: libs/data/mitup_bot/models/meetups.py, joined_users.py and utils.py; a `Meetup` is the
--     row with its links and messages, and each method is the function of its name; its dates and
--     deletion stamps are in Meeting/Schedule.
--   Guards: libs/telegram/mitup_bot/guards.py.
--   JoinLeave: the two operations of apps/bot/mitup_bot/handlers/meeting/join_leave.py, and
--     `racy_flush` of libs/data/mitup_bot/db.py; JoinLeave/Handler: the frame around them.
--   PendingLinks: libs/patreon/mitup_bot/patreon/pending_links.py over the table of
--     libs/data/mitup_bot/models/subscriptions.py. PendingLinks/Spec says what the table promises:
--     a map from code hashes to rows.
--   Users: the status lifecycle of libs/data/mitup_bot/models/users.py.
--   Broadcast: apps/events/mitup_bot/events/broadcast over libs/data/mitup_bot/models/broadcasts.py,
--     with a module per phase: Claiming, Delivery, Recording and Finalize. Broadcast/Once/Workers
--     puts any number of workers on one table, as steps in any order.
--   RateLimiter: libs/telegram/mitup_bot/rate_limiter.py.
--   CallbackData: libs/core/mitup_bot/callback_data.py, with CallbackData/Regex for the part of
--     Python's `re` that its patterns use and CallbackData/Parse for the patterns and validators.
--   UpdateProcessor: apps/bot/mitup_bot/update_processor.py, as steps of the tasks in flight.
--   Sweeps: apps/events/mitup_bot/events/deletion_sweep.py, warn_meeting_deletions.py and
--     delete_meetings.py, and libs/data/mitup_bot/deletion.py.
--   Deactivation: apps/events/mitup_bot/events/inactive_meetings.py.
--   CardRefresh: libs/telegram/mitup_bot/card_refresh.py, with the jobs of api_wrapper.py beside
--     it.
--   Outbox: the calls queued by a transaction in libs/telegram/mitup_bot/api_wrapper.py, and their drain.
--   Writes: `begin_write` of libs/data/mitup_bot/db.py and libs/telegram/mitup_bot/reconcile.py.
--   UserCleanup: apps/events/mitup_bot/events/user_cleanup.py.
-- The modules below a part hold its theorems, and its Tests the runs on concrete data.
--
-- Conventions. A table is the list of its rows, and a statement acts on each row that its filter
-- admits, as one statement does under the row locks. Moments and durations are seconds, and
-- milliseconds in the rate limiter; the clock, the ids that a sequence hands out and what Telegram
-- answers are arguments. An exception that
-- ends an operation is `none` or a value of a sum. Integers are natural numbers: counts are
-- not negative, ids are only compared, and each subtraction says where it would stop at 0. All functions
-- are total by recursion on lists, or on the retries that are left, so that no fuel is needed; the
-- decimal print alone has fuel, one more than the number, which its reading back shows enough.
--
-- Not modelled: the rendering of screens and texts, metrics and logs, HTTP and the Telegram
-- service, the database driver, the web server, configuration, migrations and tools. Nor, so far,
-- the dialogues that edit a meeting, the loop that drains a broadcast, and the other recurrent jobs.
-- SHA-256 is a parameter of the pending links, and pydantic's reading of a date one of the parsing.
pub mod Base
pub mod CallbackData
pub mod Supporter
pub mod Messages
pub mod Meeting
pub mod Guards
pub mod JoinLeave
pub mod PendingLinks
pub mod Users
pub mod Broadcast
pub mod RateLimiter
pub mod Sweeps
pub mod Deactivation
pub mod CardRefresh
pub mod Outbox
pub mod Writes
pub mod UserCleanup
pub mod UpdateProcessor

-- ===== src/Lib.antt =====
-- The server of vussa, a chat: the operations on channels and their members, the room manager
-- that passes events on to the sockets, the pages of a channel's history, the sessions and
-- accounts of the users, the outbox, and who is present.
--
-- Base has the shared tests, lists, sorting and tables with keys. Models, Error and Text follow
-- backend/src/models.rs, backend/src/error.rs and the checks of text in
-- backend/src/api/channels.rs, backend/src/api/media.rs and backend/src/websocket/history.rs;
-- identifiers are numbers, and the tables of Unicode are a parameter.
--
-- Database has the tables of backend/migrations with the columns that the code uses, as lists
-- of rows. A SQL statement is a function on them, which answers none where a constraint would
-- break. Io has the actions of the handlers: an environment says of each numbered call whether
-- it fails, and for a commit that fails whether it was applied all the same; it also gives the
-- times and the new identifiers. An action that fails inside a transaction rolls the tables
-- back. Io/Keeps, Io/Ensures and Io/Guards are the rules by which invariants are shown.
--
-- Auth, Access, Broadcast, Services and Members follow backend/src/auth.rs (permissions),
-- backend/src/api/channels.rs (access), backend/src/websocket/broadcast.rs,
-- backend/src/services.rs and backend/src/api/members.rs, one function per function there, with
-- its guards in their order; the statements stand in Services/Statements and
-- Members/Statements, and what the operations log and publish in Services/Publishing. The
-- session that a handler of Members loads is a parameter of it. Channels follows the channels
-- of backend/src/api/admin.rs: their creation, update and states by administrators. Bans
-- follows admin_create_ban there. Requests runs operations of many users and administrators one
-- after another.
--
-- Rooms follows backend/src/websocket/rooms.rs: the state of the task run_room_manager, one
-- function for each command and for a message, the inner loop over a list of inputs, and the
-- attempts to reconnect as a list. What the connection answers is part of the input: a call may
-- report an error and have taken effect. The capacity of the rooms' channels, where slow
-- receivers lose frames, is not modelled. Rooms/Switch has what a socket of
-- backend/src/websocket/handler.rs sends to the room manager when it switches rooms and ends.
--
-- History follows backend/src/websocket/history.rs: the two keys of one channel in Valkey with
-- the commands on them (History/Commands), the hot cache, and the pages. The codecs of
-- serde_json and bitcode and the search of the repository, which the code takes as a trait, are
-- parameters. Times are below 2^53, so that the casts of the source and the scores of Valkey
-- keep them.
--
-- Repository follows the messages of backend/src/repository/postgres.rs, on tables of its own:
-- an operation is what its statements do in one transaction, and leaves the tables as they were
-- if it fails.
--
-- RateLimit follows enforce_rate_limit of backend/src/auth.rs: the counter in Valkey with its
-- deadline.
--
-- Outbox follows backend/src/outbox.rs: the table of events, the statements that claim and
-- finish them, and the rounds of the loop with what the database answers to each; the handlers
-- of the topics are parameters. Outbox/Attempts has several workers and those who add events in
-- any interleaving, as a step relation. Sessions follows the sessions of backend/src/auth.rs,
-- backend/src/api/account.rs and handle_auth_invalidate of backend/src/outbox.rs: the hashes
-- and sets in Valkey, which may fail and have taken effect; Sessions/Steps has all requests on
-- one store in any order, and Sessions/Invalidation joins the outbox to it. The codecs of users
-- and identifiers are parameters.
--
-- Accounts follows the changes to users of backend/src/api/admin.rs and
-- backend/src/repository/postgres.rs, and login and recovery of backend/src/api/account.rs, on
-- tables of its own: an operation is what its statements do in one transaction, which is rolled
-- back where it answers an error. The hash of passwords and the hash of tokens are parameters;
-- the requests are authenticated and their rate limits passed. Presence follows
-- backend/src/websocket/presence.rs.
--
-- Notifications follows backend/src/notifications/delivery.rs: the queue of deliveries, the
-- claim with the target of each row, and what the spawned task of a row records; the services
-- that deliver are parameters, the disabled one apart. Notifications/Retries has several
-- workers in any interleaving. Notifications/Mentions, Notifications/Recipients and
-- Notifications/Creation follow create_message_notifications_with_clock of
-- backend/src/api/notifications.rs: the mentions in a text, the query for the recipients, and
-- the rows written, on tables of their own.
--
-- All loops run over lists, so no fuel is needed: the loop of the outbox over the rounds that
-- it makes. Not modelled: the rest of the repository and of the handler of the socket's events,
-- registration, the end of bans, moderation, the preferences of notifications, search and
-- storage. The start-up, routes and metrics are glue around libraries.
pub mod Base
pub mod Models
pub mod Error
pub mod Database
pub mod Text
pub mod Outbox
pub mod Io
pub mod Auth
pub mod Broadcast
pub mod Access
pub mod Services
pub mod Rooms
pub mod History
pub mod Members
pub mod Channels
pub mod Bans
pub mod RateLimit
pub mod Sessions
pub mod Accounts
pub mod Notifications
pub mod Presence
pub mod Repository
pub mod Requests
pub mod Tests

-- ===== src/Lib.antt =====
-- A model of arandu-whatsapp, a multi-tenant WhatsApp module: it keeps WhatsApp instances in a database,
-- connects one client of whatsmeow for each, pairs devices, and tells webhooks of events.
--
-- The parts and their files:
--
-- - Authz: internal/authz/actions.go. The action constants, Writes, the Check functions and
--   RuntimeGrantFromPair. The package `security` is a parameter, the record Security: a Grant passes its
--   own Check only for the action it was issued for.
-- - Policy: app/Policies/InstancePolicy.go with PolicyConfig of config/whatsapp.go, and the public
--   vocabulary of app/Enums/Actions.go. `can` returns the error, and `none` permits.
-- - Errors: the sentinels of internal/domain/errors.go and of the other packages, wrapping, errors.Is.
-- - Database: internal/database/types and internal/database/repository/instance_repository.go. A table is
--   a list of rows; Sql has the statements, Inputs their WHERE and SET clauses, Instances and Creation the
--   bodies of the operations, Doors the exported operations with the check of the Grant, Locks the
--   connection lock, Locks/Schedule requests on it one after the other. The record Engine says which
--   statement of a call fails, Drafting what newID and the driver answer; a transaction that fails leaves
--   the database as it was. Writes joins the ten operations that write into one function.
-- - Hub: internal/whatsapp/hub.go, the registry of clients and reservations. Each method holds the mutex
--   and is one step; concurrency is a list of steps. Slots is its abstract view.
-- - Pairing: internal/whatsapp/pairing.go and internal/whatsapp/passkey.go, the state machine of a passkey
--   challenge, the pairing sessions and the two commands. Times are parameters in nanoseconds. What
--   callbacks do while a command waits for WhatsApp is a list of steps. PasskeyEntry is what a command
--   finds when it is called, and the result of authenticateInstance in it is a parameter.
-- - Webhook: internal/database/types/webhook.go (Events), and of internal/webhook the construction of
--   the manager (Manager), and the selection of endpoints (Dispatch). The delivery engine, the URL check
--   of hesape and JSON are parameters.
-- - Connection: internal/whatsapp/service.go and internal/whatsapp/phone.go. ConnectPhone with its deferred
--   calls (Phone), cleanup and logout (Cleanup), restoreOne (Restore), and the decisions on the state of
--   a client. It uses the Hub, the lock and the writes of the Database, and RuntimeGrantFromPair. The
--   client of whatsmeow is a record of what its methods answer.
-- - Messages: the tables of messages and of their updates in internal/database/types/message.go,
--   internal/database/repository/message_repository.go and message_update_repository.go. Filter has the
--   WHERE and ORDER BY clauses, Store the bodies of the writes, Doors the check of the Grant before each,
--   Listing the bodies of List and ListPage, Reads the exported reads. encoding/json is a parameter;
--   Backend says which statement of a call fails and which ids newID returns. Paging follows the cursor:
--   its fuel is the number of requests, and one more than there are rows is enough.
-- - Processing: internal/message/processor.go and processing_repository.go, the durable mention-all messages,
--   with processMentionAllJob and persistSentMessage of internal/message/service.go. Repository has the
--   table, with base64 and JSON as the record Codec, Processor enqueue and the two handlers. The queue of hesape is the record Queue, with what is
--   documented of Push, Later and DeleteJob; that a worker removes a finished job is not modelled. A
--   handler is a transaction: an error leaves the tables and the queue as they were.
-- - Config: config/whatsapp.go, the typed configuration with Validate and WithDefaults, which module.go
--   calls in the order Validate, WithDefaults, Validate. security.ValidTenant and url.Parse are parameters.
-- - Message: internal/message/options.go, the presence and delay of a message, and the merging of
--   mentions of internal/message/mentions.go.
-- - Prelude and Fixtures: shared names, lists, texts and maps; a concrete Grant type for the tests.
--
-- A Go string is an antt string where it is only compared, and a list of code points where it is
-- inspected; `len` counts its UTF-8 bytes. The classes of package unicode are a parameter that agrees
-- with ASCII. A time.Duration that may be negative or overflow is a number below 2 ^ 64 in two's
-- complement; row ids and counters are unbounded. Apart from Paging all loops are
-- structural recursion.
--
-- Not modelled: ConnectQRCode, the loops of Restore and the handlers of client events, the repositories of
-- chats, contacts and addresses, the rest of message sending, media, the HTTP layer, the webhook payloads
-- and the module wiring. They are I/O, glue, or calls of other packages, or stand on parts that the files
-- here do not cover.
mod Prelude
pub mod Errors
pub mod Authz
pub mod Fixtures
pub mod Policy
pub mod Hub
pub mod Pairing
pub mod Webhook
pub mod Database
pub mod Messages
pub mod Processing
pub mod Message
pub mod Connection
pub mod Config

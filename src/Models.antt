-- ===== src/Models.antt =====
-- backend/src/models.rs: the data that the backend stores and sends.
-- A `Uuid` is the number of its 128 bits, which is how `Ord` compares it. Text is `String`.
mod Values
mod Message
mod Events
pub use Values.{Json, Items, Fields}
pub use Message.{Uuid, nil_uuid, ChatMessage, StoredMessage}
pub use Events.*

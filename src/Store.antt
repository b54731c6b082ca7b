-- ===== src/Store.antt =====
-- internal/store/store.go: what the servers do with mail, on top of the database and the bucket.
mod Resolve
mod Save
mod AutoReply
pub mod Routes
pub mod Recipients
pub mod Delivery
pub mod Deletion
pub mod Cooldown
mod Tests
unfoldable pub use Resolve.*
unfoldable pub use Save.*
unfoldable pub use AutoReply.*

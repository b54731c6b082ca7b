-- ===== src/Imap.antt =====
-- internal/imap/server.go: the parsers of commands, the handlers, and the session.
mod Parse
mod Session
mod Commands
pub mod Bounds
pub mod Flags
pub mod Expunge
pub mod Login
mod Tests
unfoldable pub use Parse.*
unfoldable pub use Session.*
unfoldable pub use Commands.*

-- ===== src/Smtp.antt =====
-- internal/smtp/backend.go: the sessions of the SMTP server. The parsers of net/mail and MIME are
-- parameters; what runs in the background, relaying and vacation replies, runs in the model at the
-- point where it is started, and a relayed mail is in the result.
mod Session
mod Delivery
pub mod Access
pub mod Refusal
pub mod Relay
pub mod Outage
mod Tests
unfoldable pub use Session.*
unfoldable pub use Delivery.*

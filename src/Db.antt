-- ===== src/Db.antt =====
-- internal/store/database.go with the queries of postgres.go: the SQL database, as one list of rows
-- per table. The other modules take its operations from here.
mod Tables
mod Users
mod Messages
mod Routing
mod Rules
mod Auth
mod Oauth
mod Domains
mod Accounts
unfoldable pub use Tables.*
unfoldable pub use Users.*
unfoldable pub use Messages.*
unfoldable pub use Routing.*
unfoldable pub use Rules.*
unfoldable pub use Auth.*
unfoldable pub use Oauth.*
unfoldable pub use Domains.*
unfoldable pub use Accounts.*

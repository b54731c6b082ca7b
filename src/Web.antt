-- ===== src/Web.antt =====
-- internal/web: the web interface and its REST API. Templates, JSON texts and the router of net/http
-- are left out: a request is a record of what the handlers read of it, and an answer is a status, a
-- page's error and success, or the values of a JSON object.
pub mod Sessions
pub mod Roles
pub mod Users
pub mod UsersApi
pub mod Keys
pub mod Login
pub mod SecondFactor
pub mod Signup
pub mod VCard
pub mod Paging
pub mod Mail
pub mod Compose
pub mod Settings
pub mod Admin
pub mod Consent
pub mod Domains
mod Tests

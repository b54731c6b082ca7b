-- ===== src/Security.antt =====
-- internal/security: what guards the servers against abuse, and what mail is checked for.
pub mod RateLimit
pub mod AuthVerify
pub mod Checker
pub mod MtaSts
pub mod Dane
pub mod TlsReport
mod Tests

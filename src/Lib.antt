-- ===== src/Lib.antt =====
-- bdsmail is a mail server for several domains, written in Go. This library models its own logic
-- and proves what makes it correct. Paths are those of the repository, without src/.
--
-- The servers (SMTP, IMAP, POP3, CardDAV, the web interface) take mail and commands from clients.
-- All of them work on the store (internal/store/store.go), which keeps messages, users, aliases
-- and lists in a database (internal/store/database.go) and attachments in a bucket. Inbound mail
-- passes the checks of internal/security and the users' filters (internal/filter) before it is
-- stored.
--
-- The parts of the model:
--
-- - Base: what the other modules share: lists and texts over native numbers, Boolean tests,
--   association lists for Go's maps, and Go's functions on strings.
-- - Model: the records of internal/model.
-- - Filter: internal/filter/engine.go (Apply, matchCondition, applyActions, DefaultFilters).
--   Filter.Laws holds its theorems.
-- - Security.RateLimit: internal/security/ratelimit.go; Security.AuthVerify: authverify.go;
--   Security.Checker: checker.go and the thresholds of rspamd.go; Security.MtaSts: mtasts.go;
--   Security.Dane: dane.go; Security.TlsReport: tlsrpt.go. Each has its theorems in child
--   modules.
-- - Db: the SQL database, a list of rows for each table; its children model the operations of
--   DbSQL in internal/store/database.go, those of mail, users and rules as well as domains,
--   sign-ups, permissions, history, contacts and passwords for one use, named as there in snake
--   case, by the queries of internal/store/postgres.go.
-- - Store: internal/store/store.go. Resolve is ResolveRecipient and collectLocalRecipients, Save
--   is saving, distributing, deleting and loading of messages, AutoReply is ProcessAutoReply.
--   Routes, Recipients, Delivery, Deletion and Cooldown hold theorems.
-- - Mime: the text of a message, internal/mimeutil/build.go.
-- - Imap: a session of internal/imap/server.go: Parse holds the parsers, Session the handlers
--   that read, Commands those that write, the dispatcher and the loop. Bounds, Flags (with
--   Flags.Named and Flags.Updates), Expunge and Login hold its theorems.
-- - Oauth: internal/oauth/oauth.go, with the theorems in Oauth.Grants and Oauth.Access.
-- - Smtp: internal/smtp/backend.go: Session is the login and the envelope, Delivery what DATA
--   does (handleOutbound, handleInbound, storeRaw), with the loops over the mailboxes in
--   Delivery.Targets; Access, Refusal and Outage hold its theorems.
-- - Auth: internal/auth/auth.go, with the theorems in Auth.Once.
-- - Smtp.Relay: outbound mail of internal/smtp/relay.go: which hosts are dialled, how often, and
--   what one delivery does with STARTTLS, MTA-STS, DANE and the TLS reports. Relay.Tls,
--   Relay.Dials and Relay.Succeeds hold its theorems.
-- - Config: the served domains of config/config.go; Dns: internal/dns/verify.go.
-- - Web: internal/web. Sessions is auth.go with the requests and answers that the handlers share;
--   Roles, Users and UsersApi are domain_user_handlers.go and superadmin_handlers.go, Keys is
--   apptoken_handlers.go, Login the logins of handlers.go and api_handlers.go, SecondFactor is
--   auth_2fa_handlers.go and Signup is signup_handlers.go. Sessions.Refines, Users.Owners (with
--   Owners.Keeps), Users.Roles, Keys.Senders, Login.Opened, SecondFactor.Opened and
--   Signup.Verified (with Verified.Kept) hold its theorems. Mail, Paging, Compose (with
--   Compose.Forms), Settings and VCard are the rest of handlers.go and api_handlers.go, Admin is
--   admin.go and the admin part of the API, Consent is oauth_handlers.go, Domains is
--   internal/admin/domain.go with the handlers of admin.go that call it; Mail.Owned,
--   Paging.Bounds, VCard.Roundtrip (with Roundtrip.Lines) and Admin.Secret hold theorems. A page
--   that is rendered is modelled by its error and its success message, with the messages or the
--   form that it shows.
-- - Carddav: internal/carddav/server.go, with its theorems in Carddav.Contacts.
-- - Pop3: a session of internal/pop3/server.go; Login, Marks and Expunge hold its theorems.
--
-- State is passed explicitly: an operation takes the database or the store and returns it with
-- its result. An error is `none` or false. Code that is not in the repository is a parameter: the
-- resolver, HTTPS, bcrypt, the scanners, the SPF and DKIM libraries, hash functions, the bucket,
-- new identifiers, and the clock, whose time is an argument in seconds.
--
-- Bounds: ResolveRecipient stops at depth 10, so its model has 11 calls left at the start, and at
-- the last one it answers as the code does. POP3's message numbers and the sizes of attachments
-- are 64-bit and wrap around. A printed number is below 10^40. The relay dials each host at most
-- three times. CardDAV's loop over the hrefs of a report takes the length of the body as its
-- fuel, since each round drops eight characters. All other recursion is on the list or the text
-- that the code walks along.
--
-- The model is coarser than the code in a few places. Strings are treated as ASCII where Go folds
-- case or trims blanks. The order in which Go ranges over a map is the order of insertion, or a
-- parameter. SQL's order of rows with equal keys is that of insertion, and it sorts texts as
-- bytes. The mutexes make each method one step, and requests run one after the other. Whether the
-- database answers is a field of its state that no operation changes, so a write does not fail
-- where a read before it succeeded: errors that the code drops after a read, such as those of
-- UpdateContact in CardDAV's PUT and of MarkOAuthCodeUsed, cannot occur in the model. Logging,
-- sockets and TLS are left out.
--
-- Not modelled: the DynamoDB backend (internal/store/dynamodb.go), a second implementation of the
-- database whose queries are expressions that the AWS SDK evaluates; in internal/admin the key
-- files and the certificates of a new domain; the router, CORS and the templates of the web
-- interface. Nor are the clients of ClamAV, Safe Browsing, AWS and DNS, or the start of the
-- program.
pub mod Base
pub mod Model
pub mod Filter
pub mod Security
pub mod Db
pub mod Store
pub mod Mime
pub mod Pop3
pub mod Imap
pub mod Oauth
pub mod Smtp
pub mod Auth
pub mod Config
pub mod Dns
pub mod Carddav
pub mod Web

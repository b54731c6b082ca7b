-- ===== src/Smtp/Access.antt =====
-- What an SMTP session needs for a login, and who a message is for.
use bdsmail.Base.{
  Bool-cases, List, Option, Option-cases, String, [], ap, arith, eq_iff, false, false≢true, has,
  has-append, inl, inr, keep, len, none, not, refl, slice, some, starts_with, true, ℕ, ◌++◌, ◌==◌,
  ◌||◌, ◌∙◌, ◌∷◌, ◌≡◌, ◌⊎◌,
}
use bdsmail.Model.{AppToken, User}
use bdsmail.Security.RateLimit.{RateLimiter}
use bdsmail.Db.{Db, get_app_token_by_hash, get_user_by_email}
use bdsmail.Smtp.Session.{
  SmtpEnv, SmtpSession, auth_plain, check_app_token, collect_bcc, credentials_fit, locked_now,
}

-- a user of the database, whose password or whose app token was given
pub record Identified (env : SmtpEnv) (db : Db) (username password : String) : Type 0 where
  pub user : User
  pub found : get_user_by_email db username ≡ some user
  pub proof :
      (env.check_password user.password_hash password ≡ true)
      ⊎ ((token : AppToken) × (get_app_token_by_hash db
              (env.sha256_hex (slice password 7 (len password)))
            ≡ some token)
          × (token.sender_email ≡ username)
          × (starts_with password "bds_ak_" ≡ true))

check_app_token_sound :
    (env : SmtpEnv) (db : Db) (sender password : String) (now : ℕ)
    → (check_app_token env db sender password now).0 ≡ true
    → (token : AppToken) × (get_app_token_by_hash db
          (env.sha256_hex (slice password 7 (len password)))
        ≡ some token)
      × (token.sender_email ≡ sender)
      × (starts_with password "bds_ak_" ≡ true)
unfolding check_app_token
check_app_token_sound env db sender password now h =
    elim (Option-cases
      (get_app_token_by_hash db (env.sha256_hex (slice password 7 (len password))))) [
        | inl e ↦ absurd (ground (arith, h, e))
        | inr (token, e) ↦
            (token, e, ground (arith, h, e, eq_iff token.sender_email sender), ground (arith, h, e))
      ]

password_or_token :
    (env : SmtpEnv) (db : Db) (username password : String) (user : User) (now : ℕ)
    → get_user_by_email db username ≡ some user
    → (credentials_fit env db username password (some user) now).0 ≡ true
    → Identified env db username password
unfolding credentials_fit
password_or_token env db username password user now e h =
    elim (Bool-cases (env.check_password user.password_hash password)) [
      | inl k ↦ record { user = user; found = e; proof = inl k }
      | inr k ↦ record {
        user = user;
        found = e;
        proof = inr (check_app_token_sound env db username password now (ground (arith, h, k)));
      }
    ]

credentials_fit_sound :
    (env : SmtpEnv) (db : Db) (username password : String) (found : Option User) (now : ℕ)
    → get_user_by_email db username ≡ found
    → (credentials_fit env db username password found now).0 ≡ true
    → Identified env db username password
credentials_fit_sound env db username password none now e h =
    absurd (false≢true (unfold credentials_fit in h))
credentials_fit_sound env db username password (some user) now e h =
    password_or_token env db username password user now e h

module _ {L : Type 0} where
  -- A session becomes a logged-in one by AUTH only if the address is not locked out, and the
  -- database knows the user and the password is the user's or an app token of the user's.
  pub auth_plain-Identified :
      (env : SmtpEnv) (rl : Option (RateLimiter L)) (db : Db) (sess : SmtpSession)
      (username password : String) (now : ℕ)
      → sess.authed ≡ false
      → (auth_plain env rl db sess username password now).3.authed ≡ true
      → ((locked_now rl sess.remote_ip now).0 ≡ false) × Identified env db username password
  unfolding auth_plain
  auth_plain-Identified env rl db sess username password now before after =
      let found = get_user_by_email db username in
      elim (Bool-cases (locked_now rl sess.remote_ip now).0) [
        | inl e ↦ absurd (ground (arith, before, after, e))
        | inr e ↦ (
          e,
          credentials_fit_sound env db username password found now refl
              (ground (arith, before, after, e)),
        )
      ]

same_text : (x a : String) (known : List String) → (x == a) ≡ true → has x known ≡ has a known
same_text x a known e = ap (λ (y : String). has y known) (ground (arith, e, eq_iff x a))

has-keep_or :
    (a : String) (xs known : List String)
    → has a xs ≡ true
    → (has a known || has a (keep (λ x. not (has x known)) xs)) ≡ true
unfolding has keep
has-keep_or a [] known h = absurd (false≢true h)
has-keep_or a (x ∷ xs) known h = ground (arith, h, has-keep_or a xs known, same_text x a known)

-- Every recipient of the envelope is among the addresses that the message is delivered to: in the
-- To or Cc that the header gives, or in the Bcc that is made up from the envelope.
collect_bcc_complete :
    (sess : SmtpSession) (to cc_addrs : List String) (a : String)
    → has a sess.to ≡ true
    → has a (to ++ cc_addrs ++ collect_bcc sess to cc_addrs) ≡ true
unfolding collect_bcc
collect_bcc_complete sess to cc_addrs a h =
    has-append a (to ++ cc_addrs) (keep (λ x. not (has x (to ++ cc_addrs))) sess.to)
    ∙ has-keep_or a sess.to (to ++ cc_addrs) h

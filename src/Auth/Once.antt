-- ===== src/Auth/Once.antt =====
-- What is used up: login tokens and backup codes work once.
use bdsmail.Base.{
  Bool, Bool-cases, List, Option, Option-cases, String, [], ap, arith, code, false, first,
  first-keep_gone, first-update, inl, inr, join, keep, none, not, refl, some, split, subst, sym,
  true, update, ℕ, ◌==◌, ◌∙◌, ◌∷◌, ◌≡◌, ◌≤◌,
}
use bdsmail.Model.{LoginToken, User, is_expired}
use bdsmail.Db.{
  Db, delete_login_token, enable_2fa, get_2fa_status, get_login_token, has_email, or_same,
}
use bdsmail.Auth.{
  AuthEnv, check_login_token, consume_code, consume_login_token, use_backup_code,
  validate_login_token, verify_backup_code,
}

deleted_token :
    (db : Db) (token : String)
    → db.down ≡ false
    → get_login_token (or_same db (delete_login_token db token)) token ≡ none
deleted_token db token up =
    let e : delete_login_token db token
        ≡ some (record db { login_token = keep (λ t. not (t.token == token)) db.login_token }) =
      unfold delete_login_token in simp up in
    rw e (
      unfold get_login_token in
      simp (up, first-keep_gone (λ (t : LoginToken). t.token == token) db.login_token))

token_up :
    (db : Db) (token : String) (t : LoginToken)
    → get_login_token db token ≡ some t
    → db.down ≡ false
unfolding get_login_token
token_up db token t h = ground (arith, h)

pub validated :
    (db : Db) (token address : String) (now : ℕ) (found : Option LoginToken)
    → (check_login_token db token now found).0 ≡ some address
    → (t : LoginToken) × (found ≡ some t)
      × (now ≤ t.expires_at)
      × (t.user_email ≡ address)
      × ((check_login_token db token now found).1 ≡ db)
unfolding check_login_token is_expired
validated db token address now none h = ground (arith, h)
validated db token address now (some t) h =
    (t, refl, ground (arith, h), ground (arith, h), ground (arith, h))

pub consume_deletes :
    (db : Db) (token address : String) (now : ℕ)
    → (consume_login_token db token now).0 ≡ some address
    → ((validate_login_token db token now).0 ≡ some address)
      × ((consume_login_token db token now).1
          ≡ or_same
              (validate_login_token db token now).1
              (delete_login_token (validate_login_token db token now).1 token))
unfolding consume_login_token
consume_deletes db token address now h = (ground (arith, h), ground (arith, h))

no_token :
    (db : Db) (token : String) (now : ℕ)
    → get_login_token db token ≡ none
    → (consume_login_token db token now).0 ≡ none
unfolding consume_login_token validate_login_token
no_token db token now e =
    let gone : check_login_token db token now (get_login_token db token) ≡ (none, db) =
      rw e (unfold check_login_token in refl) in
    ground (arith, gone)

-- A login token that was consumed gave the email that it was made for, was not expired, and is refused
-- from then on, at any time.
pub consume_login_token_once :
    (db : Db) (token address : String) (now later : ℕ)
    → (consume_login_token db token now).0 ≡ some address
    → ((t : LoginToken) × (get_login_token db token ≡ some t)
        × (t.user_email ≡ address)
        × (now ≤ t.expires_at))
      × ((consume_login_token (consume_login_token db token now).1 token later).0 ≡ none)
consume_login_token_once db token address now later h =
    let (valid, after) = consume_deletes db token address now h in
    let (t, found, in_time, same, db_same) =
      validated db token address now (get_login_token db token)
        (unfold validate_login_token in valid) in
    let same_db : (validate_login_token db token now).1 ≡ db =
      unfold validate_login_token in db_same in
    let deleted : (consume_login_token db token now).1 ≡ or_same db (delete_login_token db token) =
      after ∙ ap (λ (d : Db). or_same d (delete_login_token d token)) same_db in
    (
      (t, found, same, in_time),
      no_token (consume_login_token db token now).1 token later (
          ap (λ (d : Db). get_login_token d token) deleted
          ∙ deleted_token db token (token_up db token t found)),
    )

-- `remaining` is `hashes` without one that the code fits
pub data Removed (env : AuthEnv) (code : String) : List String → List String → Type 0 where
  here :
      {hash : String} {rest : List String}
      → env.code_fits hash code ≡ true
      → Removed env code (hash ∷ rest) rest
  there :
      {hash : String} {rest remaining : List String}
      → env.code_fits hash code ≡ false
      → Removed env code rest remaining
      → Removed env code (hash ∷ rest) (hash ∷ remaining)

consume_code-Removed :
    (env : AuthEnv) (code : String) (hashes remaining : List String)
    → consume_code env code hashes ≡ some remaining
    → Removed env code hashes remaining
unfolding consume_code
consume_code-Removed env code [] remaining h = absurd (ground (arith, h))
consume_code-Removed env code (hash ∷ rest) remaining h =
    elim (Bool-cases (env.code_fits hash code)) [
      | inl e ↦
          subst (λ l. Removed env code (hash ∷ rest) l) (ground (arith, h, e)) (Removed.here e)
      | inr e ↦ elim (Option-cases (consume_code env code rest)) [
        | inl k ↦ absurd (ground (arith, h, e, k))
        | inr (more, k) ↦
            subst (λ l. Removed env code (hash ∷ rest) l) (ground (arith, h, e, k))
              (Removed.there e (consume_code-Removed env code rest more k))
      ]
    ]

status_user :
    (db : Db) (address : String) (status : Bool × String × String)
    → get_2fa_status db address ≡ some status
    → (db.down ≡ false) × ((u : User) × (first (has_email address) db.user_account ≡ some u))
unfolding get_2fa_status
status_user db address status h = elim (Bool-cases db.down) [
  | inl e ↦ absurd (ground (arith, h, e))
  | inr e ↦ elim (Option-cases (first (has_email address) db.user_account)) [
    | inl k ↦ absurd (ground (arith, h, e, k))
    | inr (u, k) ↦ (e, (u, k))
  ]
]

-- what is written with Enable2FA is read back
enable_2fa_read :
    (db : Db) (address secret backup : String) (status : Bool × String × String)
    → get_2fa_status db address ≡ some status
    → get_2fa_status (or_same db (enable_2fa db address secret backup)) address
      ≡ some (true, secret, backup)
enable_2fa_read db address secret backup status h =
    let (up, (u, found)) = status_user db address status h in
    let change : User → User =
      λ u. record u { twofa_enabled = true; twofa_secret = secret; twofa_backup_codes = backup } in
    let e : enable_2fa db address secret backup
        ≡ some (record db { user_account = update (has_email address) change db.user_account }) =
      unfold enable_2fa in simp up in
    rw e (
      unfold get_2fa_status in
      simp (up, first-update (has_email address) change db.user_account u (λ x. refl) found))

use_backup_code-Removed :
    (env : AuthEnv) (db : Db) (address code secret backup : String) (enabled : Bool)
    → (use_backup_code env db address code (some (enabled, secret, backup))).0 ≡ some true
    → (enabled ≡ true)
      × ((remaining : List String) × (consume_code env code (split b'|' backup) ≡ some remaining)
          × ((use_backup_code env db address code (some (enabled, secret, backup))).1
              ≡ or_same db (enable_2fa db address secret (join "|" remaining))))
unfolding use_backup_code
use_backup_code-Removed env db address code secret backup enabled h =
    elim (Option-cases (consume_code env code (split b'|' backup))) [
      | inl e ↦ absurd (ground (arith, h, e))
      | inr (remaining, e) ↦ (ground (arith, h, e), (remaining, e, ground (arith, h, e)))
    ]

used_status :
    (env : AuthEnv) (db : Db) (address code : String) (found : Option (Bool × String × String))
    → (use_backup_code env db address code found).0 ≡ some true
    → (status : Bool × String × String) × (found ≡ some status)
unfolding use_backup_code
used_status env db address code none h = absurd (ground (arith, h))
used_status env db address code (some status) h = (status, refl)

-- A backup code is accepted only for a user whose second factor is on, and only if it fits one of the
-- stored hashes; the first such hash, and no other, is then gone from what the database gives for the
-- user, and the secret stays.
pub verify_backup_code_once :
    (env : AuthEnv) (db : Db) (address code : String)
    → (verify_backup_code env db address code).0 ≡ some true
    → (secret : String) × (backup : String) × (remaining : List String) × (get_2fa_status db address
        ≡ some (true, secret, backup))
      × Removed env code (split b'|' backup) remaining
      × (get_2fa_status (verify_backup_code env db address code).1 address
          ≡ some (true, secret, join "|" remaining))
unfolding verify_backup_code
verify_backup_code_once env db address code h =
    let ((enabled, secret, backup), e) =
      used_status env db address code (get_2fa_status db address) h in
    let h' : (use_backup_code env db address code (some (enabled, secret, backup))).0 ≡ some true =
      ap (λ (o : Option (Bool × String × String)). (use_backup_code env db address code o).0)
        (sym e)
      ∙ h in
    let (on, (remaining, consumed, written)) =
      use_backup_code-Removed env db address code secret backup enabled h' in
    (
      secret,
      backup,
      remaining,
      e ∙ ap (λ (b : Bool). some (b, secret, backup)) on,
      consume_code-Removed env code (split b'|' backup) remaining consumed,
      ap
            (λ (o : Option (Bool × String × String)).
              get_2fa_status (use_backup_code env db address code o).1 address)
            e
          ∙ ap (λ (d : Db). get_2fa_status d address) written
          ∙ enable_2fa_read db address secret (join "|" remaining) (enabled, secret, backup) e,
    )

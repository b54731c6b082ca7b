-- ===== src/Oauth/Access.antt =====
-- What a token that was granted gives access to.
use bdsmail.Base.{
  Option, String, ap, arith, eq_refl, false, first-append_new, none, some, subst, sym, ℕ, ◌+◌, ◌==◌,
  ◌∙◌, ◌≡◌, ◌≤◌,
}
use bdsmail.Model.{OauthCode, OauthToken, is_expired}
use bdsmail.Db.{
  Db, create_oauth_token, get_oauth_code, get_oauth_token, mark_oauth_code_used, or_same,
  split_email,
}
use bdsmail.Oauth.{
  Answer, OauthEnv, TokenRequest, TokenResponse, extract_bearer_token, granted, handle_token,
  handle_user_info, issue_token, refused,
}
use bdsmail.Oauth.Grants.{code_found, handle_token-IsGrantable}

abbrev token_row : TokenRequest → OauthCode → String → ℕ → OauthToken
token_row req c token now = record {
  token = token;
  client_id = req.client_id;
  user_email = c.user_email;
  scope = c.scope;
  expires_at = now + 3600;
}

get_oauth_token-create :
    (db : Db) (t : OauthToken)
    → db.down ≡ false
    → get_oauth_token db t.token ≡ none
    → get_oauth_token (or_same db (create_oauth_token db t)) t.token ≡ some t
unfolding get_oauth_token create_oauth_token
get_oauth_token-create db t up new =
    let (fresh, found) =
      first-append_new (λ x. x.token == t.token) t db.oauth_token (rw up at new)
        (eq_refl t.token) in
    rw (up, fresh) found

-- marking a code changes neither the tokens nor that the database answers
marked-same :
    (db : Db) (code token : String)
    → db.down ≡ false
    → ((or_same db (mark_oauth_code_used db code)).down ≡ false)
      × (get_oauth_token (or_same db (mark_oauth_code_used db code)) token
          ≡ get_oauth_token db token)
unfolding mark_oauth_code_used get_oauth_token
marked-same db code token up = (simp up, simp up)

stored_token :
    (db : Db) (req : TokenRequest) (c : OauthCode) (token : String) (now : ℕ)
    → db.down ≡ false
    → get_oauth_token db token ≡ none
    → get_oauth_token (issue_token db req c (some token) now).1 token
      ≡ some (token_row req c token now)
unfolding issue_token
stored_token db req c token now up new =
    let (up', same) = marked-same db req.code token up in
    get_oauth_token-create (or_same db (mark_oauth_code_used db req.code))
      (token_row req c token now) up' (same ∙ new)

issue_token-stored :
    (db : Db) (req : TokenRequest) (c : OauthCode) (random : Option String) (now : ℕ)
    (resp : TokenResponse)
    → db.down ≡ false
    → (issue_token db req c random now).0 ≡ granted resp
    → get_oauth_token db resp.access_token ≡ none
    → get_oauth_token (issue_token db req c random now).1 resp.access_token
      ≡ some (token_row req c resp.access_token now)
unfolding issue_token
issue_token-stored db req c none now resp up h new = absurd (ground (arith, h))
issue_token-stored db req c (some token) now resp up h new =
    let e : token ≡ resp.access_token = ap given h in
    subst
      (λ t.
        get_oauth_token (issue_token db req c (some token) now).1 t ≡ some (token_row req c t now))
      e (stored_token db req c token now up (subst (λ t. get_oauth_token db t ≡ none) (sym e) new))
  where
    given : Answer → String
    given (refused status error) = ""
    given (granted r) = r.access_token

-- The user information endpoint, asked with a header that carries a token that was granted for a code,
-- answers until an hour has passed with the email, the name and the domain of the code's user, where
-- the token is not empty and no earlier row has it.
pub handle_token-user_info :
    (env : OauthEnv) (db : Db) (req : TokenRequest) (random : Option String) (now later : ℕ)
    (resp : TokenResponse) (header : String)
    → (handle_token env db req random now).0 ≡ granted resp
    → get_oauth_token db resp.access_token ≡ none
    → extract_bearer_token header ≡ resp.access_token
    → (resp.access_token == "") ≡ false
    → later ≤ now + 3600
    → (c : OauthCode) × (get_oauth_code db req.code ≡ some c)
      × (handle_user_info (handle_token env db req random now).1 header later
          ≡ some (c.user_email, (split_email c.user_email).0, (split_email c.user_email).1))
unfolding handle_user_info is_expired
handle_token-user_info env db req random now later resp header h new same full in_time =
    let (c, g, issues) = handle_token-IsGrantable env db req random now resp h in
    let (up, row) = code_found db req.code c g.issued in
    let stored =
      ap (λ (a : Answer × Db). get_oauth_token a.1 resp.access_token) issues
      ∙ issue_token-stored db req c random now resp up
          (sym (ap (λ (a : Answer × Db). a.0) issues) ∙ h) new in
    (c, g.issued, rw (same, full, stored) (ground (arith, in_time)))

-- ===== src/Oauth/Tests.antt =====
-- The theorems on OAuth at a concrete client and code.
use bdsmail.Base.{[], arith, false, first, none, refl, some, ◌==◌, ◌∷◌, ◌≡◌}
use bdsmail.Model.{OauthCode, is_expired}
use bdsmail.Db.{Db, empty_db, get_oauth_client, get_oauth_code, get_oauth_token, split_email}
use bdsmail.Oauth.{
  OauthEnv, TokenRequest, TokenResponse, client_is_verified, extract_bearer_token, granted,
  handle_token, handle_user_info, issue_token, redeem,
}
use bdsmail.Oauth.Access.{handle_token-user_info}
use bdsmail.Oauth.Grants.{is_granted, IsGrantable, handle_token-IsGrantable, handle_token-only_once}

abbrev env : OauthEnv
env = record { check_secret = λ hash secret. hash == secret; hash_secret = λ secret. some secret }

abbrev code_row : OauthCode
code_row = record {
  code = "c0de";
  client_id = "app";
  user_email = "ann@bds.example";
  redirect_uri = "https://app.example/cb";
  scope = "openid email";
  nonce = "n1";
  expires_at = 1600;
  used = false;
}

abbrev db : Db
db = record empty_db {
  oauth_client =
      record {
        id = "1";
        name = "App";
        client_id = "app";
        secret_hash = "s3cret";
        redirect_uri = "https://app.example/cb";
        domain = "bds.example";
        created_by = "ann@bds.example";
      }
      ∷ [];
  oauth_code = code_row ∷ [];
}

abbrev request : TokenRequest
request = record {
  method = "POST";
  grant_type = "authorization_code";
  code = "c0de";
  redirect_uri = "";
  client_id = "app";
  client_secret = "s3cret";
}

abbrev response : TokenResponse
response = record {
  access_token = "t0ken";
  expires_in = 3600;
  scope = "openid email";
  id_token = some ("ann@bds.example", "app", "n1");
}

grants : (handle_token env db request (some "t0ken") 1500).0 ≡ granted response
unfolding handle_token redeem issue_token client_is_verified get_oauth_client get_oauth_code first
    is_expired
grants = refl

handle_token-IsGrantable_example :
    (c : OauthCode) × IsGrantable env db request 1500 c
    × (handle_token env db request (some "t0ken") 1500
        ≡ issue_token db request c (some "t0ken") 1500)
handle_token-IsGrantable_example =
    handle_token-IsGrantable env db request (some "t0ken") 1500 response grants

handle_token-only_once_example :
    is_granted
      (handle_token env
        (handle_token env db request (some "t0ken") 1500).1
        request
        (some "t2")
        1501).0
    ≡ false
handle_token-only_once_example =
    handle_token-only_once env env db request request (some "t0ken") (some "t2") 1500 1501 response
      grants refl

-- no row has the new token
no_token : get_oauth_token db "t0ken" ≡ none
unfolding get_oauth_token first
no_token = refl

bearer : extract_bearer_token "Bearer t0ken" ≡ "t0ken"
unfolding extract_bearer_token
bearer = refl

handle_token-user_info_example :
    (c : OauthCode) × (get_oauth_code db "c0de" ≡ some c)
    × (handle_user_info (handle_token env db request (some "t0ken") 1500).1 "Bearer t0ken" 5100
        ≡ some (c.user_email, (split_email c.user_email).0, (split_email c.user_email).1))
handle_token-user_info_example =
    handle_token-user_info env db request (some "t0ken") 1500 5100 response "Bearer t0ken" grants
      no_token bearer refl (omega arith)

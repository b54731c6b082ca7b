-- ===== src/Web/Sessions.antt =====
-- internal/web/auth.go: the sessions, a map from tokens to email addresses; and the parts of a request
-- and of an answer that the handlers share. Cookies are values that the client sends back.
pub mod Refines
use bdsmail.Base.{
  Assoc, Bool, Bool-cases, List, Option, String, [], arith, inl, inr, insert, lookup, lookup-insert,
  lookup-insert_self, none, remove, some, ℕ, ◌==◌, ◌∷◌, ◌≡◌, ◌⊎◌,
}

-- What the handlers read of a request: a form value or a JSON field is the empty text where it is
-- missing (`values` and `flag` are the fields of a JSON body that are lists and Booleans), and `decodes` says whether the JSON body could be read.
pub record Request : Type 0 where
  pub method : String
  pub host : String
  pub path : String
  pub session : Option String
  pub admin : Option String
  pub authorization : String
  pub value : String → String
  pub values : String → List String
  pub flag : String → Bool
  pub decodes : Bool
  pub client_ip : Option String

pub data Answer : Type 0 where
  failed : ℕ → Answer
  redirect : String → Answer
  page : String → String → Answer
  json : List (String × String) → Answer
  rows : List (List (String × String)) → Answer

-- the answer {"status": "ok"}
abbrev pub status_ok : Answer
status_ok = json (("status", "ok") ∷ [])

abbrev pub SessionStore : Type 0
SessionStore = Assoc String

unfoldable pub new_session_store : SessionStore
new_session_store = []

-- the random token is given, none where the generator fails
unfoldable pub create : SessionStore → Option String → String → Option String × SessionStore
create ss none username = (none, ss)
create ss (some token) username = (some token, insert token username ss)

unfoldable pub get : SessionStore → String → Option String
unfolding lookup
get ss token = lookup token ss

unfoldable pub delete : SessionStore → String → SessionStore
unfolding remove
delete ss token = remove token ss

-- the value of the cookie that is set, none for the error
unfoldable pub create_session : SessionStore → Option String → String → Option String × SessionStore
unfolding create
create_session ss token username = create ss token username

unfoldable pub get_session_user : Option String → SessionStore → String
unfolding get
get_session_user none ss = ""
get_session_user (some token) ss = elim (get ss token) [ none ↦ "" | some username ↦ username ]

unfoldable pub clear_session : Option String → SessionStore → SessionStore
unfolding delete
clear_session none ss = ss
clear_session (some token) ss = delete ss token

-- A session that was created is the user's until it is cleared.
pub session_of_new :
    (ss : SessionStore) (token username : String)
    → get_session_user (some token) (create_session ss (some token) username).1 ≡ username
unfolding get_session_user create_session
session_of_new ss token username = ground (arith, lookup-insert_self token username ss)

-- A new session is the only one that is added.
pub get-create :
    (ss : SessionStore) (given : Option String) (username token address : String)
    → get (create_session ss given username).1 token ≡ some address
    → (get ss token ≡ some address) ⊎ (address ≡ username)
unfolding get create_session
get-create ss none username token address h = inl h
get-create ss (some new) username token address h = elim (Bool-cases (new == token)) [
  | inl e ↦ inr (ground (arith, e, h, lookup-insert new token username ss))
  | inr e ↦ inl (ground (arith, e, h, lookup-insert new token username ss))
]

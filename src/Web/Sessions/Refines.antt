-- ===== src/Web/Sessions/Refines.antt =====
-- The session store against a description that has no map and no tokens but those of the cookies.
use bdsmail.Base.{
  Bool, List, Option, String, [], ap, arith, false, if◌then◌else◌, lookup-insert, lookup-remove,
  none, refl, some, ◌==◌, ◌∙◌, ◌∷◌, ◌≡◌,
}
use bdsmail.Web.Sessions.{SessionStore, clear_session, create_session, get_session_user}

-- whose session a cookie is, the empty text where there is none
abbrev pub Owners : Type 0
Owners = Option String → String

abbrev pub view : SessionStore → Owners
view ss cookie = get_session_user cookie ss

-- a session is created, with its random token, or cleared, with the cookie of the request
pub data SessionOp : Type 0 where
  opened : Option String → String → SessionOp
  closed : Option String → SessionOp

unfoldable pub applied : SessionStore → SessionOp → SessionStore
applied ss (opened token username) = (create_session ss token username).1
applied ss (closed cookie) = clear_session cookie ss

unfoldable pub run_sessions : SessionStore → List SessionOp → SessionStore
run_sessions ss [] = ss
run_sessions ss (op ∷ ops) = run_sessions (applied ss op) ops

abbrev same_cookie : Option String → Option String → Bool
same_cookie (some a) (some b) = a == b
same_cookie _ _ = false

-- only the cookie of the operation changes its owner
unfoldable pub owned : Owners → SessionOp → Owners
owned owners (opened token username) cookie =
    if same_cookie token cookie then username else owners cookie
owned owners (closed token) cookie = if same_cookie token cookie then "" else owners cookie

unfoldable pub run_owned : Owners → List SessionOp → Owners
run_owned owners [] = owners
run_owned owners (op ∷ ops) = run_owned (owned owners op) ops

view-applied :
    (ss : SessionStore) (op : SessionOp) (cookie : Option String)
    → view (applied ss op) cookie ≡ owned (view ss) op cookie
unfolding applied owned create_session clear_session get_session_user
view-applied ss (opened none username) none = refl
view-applied ss (opened none username) (some b) = refl
view-applied ss (opened (some a) username) none = refl
view-applied ss (opened (some a) username) (some b) = ground (arith, lookup-insert a b username ss)
view-applied ss (closed none) none = refl
view-applied ss (closed none) (some b) = refl
view-applied ss (closed (some a)) none = refl
view-applied ss (closed (some a)) (some b) = ground (arith, lookup-remove a b ss)

-- After any sequence of logins and logouts each cookie belongs to whom the last operation with this
-- token left it: the user of a session that was created, nobody where it was cleared, and whom it
-- belonged to at the start where no operation has its token.
pub view-run :
    (ss : SessionStore) (ops : List SessionOp)
    → view (run_sessions ss ops) ≡ run_owned (view ss) ops
unfolding run_sessions run_owned
view-run ss [] = refl
view-run ss (op ∷ ops) =
    view-run (applied ss op) ops
    ∙ ap (λ owners. run_owned owners ops) (λ i cookie. view-applied ss op cookie i)

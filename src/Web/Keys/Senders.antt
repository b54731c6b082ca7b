-- ===== src/Web/Keys/Senders.antt =====
-- Whose address an API key can send from.
use mathlib.Core.List.{Memᴰ}
use bdsmail.Base.{
  Bool-cases, Option-cases, String, arith, eq_iff, if_intro, inl, inr, mem-append_one, mem-keep,
  not, refl, some, subst, trim_space, true, ℕ, ◌==◌, ◌||◌, ◌≡◌, ◌⊎◌,
}
use bdsmail.Model.{AppToken, email}
use bdsmail.Db.{Db, create_app_token, delete_app_token, or_same, split_email, user_exists_by_email}
use bdsmail.Web.Sessions.{Answer, Request, SessionStore, get_session_user}
use bdsmail.Web.Roles.{is_admin}
use bdsmail.Web.Keys.{KeysEnv, NewKey, create_key, handle_api_keys, new_app_token}

-- the sender is a user whose domain is that of `email`
pub record IsOwnSender (db : Db) (email : String) (t : AppToken) : Type 0 where
  pub exists : user_exists_by_email db t.sender_email ≡ true
  pub same_domain : (split_email t.sender_email).1 ≡ (split_email email).1
  pub of_domain : t.domain ≡ (split_email email).1

create_app_token-mem :
    (db db' : Db) (token t : AppToken)
    → create_app_token db token ≡ some db'
    → Memᴰ t db'.app_token
    → Memᴰ t db.app_token ⊎ (t ≡ token)
unfolding create_app_token
create_app_token-mem db db' token t e m =
    mem-append_one t token db.app_token (subst (λ l. Memᴰ t l) (ground (arith, e)) m)

delete_app_token-mem :
    (db : Db) (id : String) (t : AppToken)
    → Memᴰ t (or_same db (delete_app_token db id)).app_token
    → Memᴰ t db.app_token
unfolding delete_app_token
delete_app_token-mem db id t m = elim (Bool-cases db.down) [
  | inl e ↦ simp e at m
  | inr e ↦ mem-keep (λ x. not (x.id == id)) t db.app_token (simp e at m)
]

-- every key in the second database is one of the first or has a sender of the domain of `email`
abbrev HasOwnSenders : Db → String → Answer × Db → Type 0
HasOwnSenders db email r =
    (t : AppToken) → Memᴰ t r.1.app_token → Memᴰ t db.app_token ⊎ IsOwnSender db email t

create_key-HasOwnSenders :
    (env : KeysEnv) (db : Db) (email : String) (value : String → String) (key : NewKey)
    → HasOwnSenders db email (create_key env db email value key)
unfolding create_key new_app_token
create_key-HasOwnSenders env db email value key =
    let P = HasOwnSenders db email in
    let domain = (split_email email).1 in
    let name = trim_space (value "name") in
    let sender = trim_space (value "sender_email") in
    let token = new_app_token env key name domain sender email in
    if_intro P (name == "" || sender == "") (λ _ t m. inl m)
      (λ _.
        if_intro P (not (user_exists_by_email db sender)) (λ _ t m. inl m)
          (λ known.
            if_intro P (not ((split_email sender).1 == domain)) (λ _ t m. inl m)
              (λ own. elim (Option-cases (create_app_token db token)) [
                | inl e ↦ rw e (λ t m. inl m)
                | inr (db', e) ↦ rw e (λ t m. elim (create_app_token-mem db db' token t e m) [
                  | inl k ↦ inl k
                  | inr same ↦ inr (record {
                    exists = rw same (ground (arith, known));
                    same_domain =
                        rw same (ground (arith, own, eq_iff (split_email sender).1 domain));
                    of_domain = rw same refl;
                  })
                ])
              ])))

-- An API key that a request to the page for API keys leaves behind was there before, or can send only
-- from the address of a user of the requester's domain, the domain it is filed under.
pub handle_api_keys-IsOwnSender :
    (env : KeysEnv) (ss : SessionStore) (db : Db) (r : Request) (key : NewKey) (now : ℕ)
    (t : AppToken)
    → Memᴰ t (handle_api_keys env ss db r key now).1.app_token
    → Memᴰ t db.app_token ⊎ IsOwnSender db (get_session_user r.session ss) t
unfolding handle_api_keys
handle_api_keys-IsOwnSender env ss db r key now t =
    let email = get_session_user r.session ss in
    let P = HasOwnSenders db email in
    if_intro P (email == "") (λ _ t m. inl m)
      (λ _.
        if_intro P (not (is_admin db email now)) (λ _ t m. inl m)
          (λ _.
            if_intro P (not (r.method == "POST")) (λ _ t m. inl m)
              (λ _.
                if_intro P (r.value "action" == "create")
                  (λ _. create_key-HasOwnSenders env db email r.value key)
                  (λ _.
                    if_intro P (r.value "action" == "delete")
                      (λ _ t m. inl (delete_app_token-mem db (r.value "token_id") t m))
                      (λ _ t m. inl m)))))
      t

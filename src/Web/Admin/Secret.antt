-- ===== src/Web/Admin/Secret.antt =====
-- Who may administer through the pages.
use bdsmail.Base.{
  Option-cases, String, ap, arith, eq_iff, false, inl, inr, none, refl, some, true, ◌==◌, ◌∙◌, ◌≡◌,
  ◌⊎◌,
}
use bdsmail.Db.{Db}
use bdsmail.Web.Sessions.{Answer, Request}
use bdsmail.Web.Users.{Passwords}
use bdsmail.Web.Admin.{
  admin_alias_action, admin_list_action, admin_user_action, behind_secret, handle_admin_aliases,
  handle_admin_auth, handle_admin_lists, handle_admin_users, is_admin_authed,
}

-- a secret is configured, and the client sent it as its cookie
abbrev pub IsAdmin : String → Request → Type 0
IsAdmin secret r = ((secret == "") ≡ false) × (r.admin ≡ some secret)

-- the database is unchanged, or the client is an administrator
abbrev Guarded : String → Request → Db → Answer × Db → Type 0
Guarded secret r db out = (out.1 ≡ db) ⊎ IsAdmin secret r

sent_secret :
    (secret : String) (r : Request) → is_admin_authed secret r ≡ true → r.admin ≡ some secret
unfolding is_admin_authed
sent_secret secret r h = elim (Option-cases r.admin) [
  | inl e ↦ absurd (ground (arith, h, e))
  | inr (value, e) ↦
      let same : (value == secret) ≡ true = ground (arith, h, e) in
      e ∙ ap some ((eq_iff value secret).0 same)
]

let_in :
    (secret : String) (r : Request) (path : String)
    → handle_admin_auth secret r path ≡ none
    → ((secret == "") ≡ false) × (is_admin_authed secret r ≡ true)
unfolding handle_admin_auth
let_in secret r path h = (ground (arith, h), ground (arith, h))

behind_secret-Guarded :
    (secret : String) (db : Db) (r : Request) (path : String)
    (action : Db → (String → String) → Answer × Db)
    → Guarded secret r db (behind_secret secret db r path action)
behind_secret-Guarded secret db r path action =
    elim (Option-cases (handle_admin_auth secret r path)) [
      | inl e ↦
          let (configured, authed) = let_in secret r path e in
          inr (configured, sent_secret secret r authed)
      | inr (refusal, e) ↦ inl (rw (behind_secret, e) refl)
    ]

-- A request to the administration pages changes no user, no alias and no list unless a secret is
-- configured and the client sent it as its cookie.
pub handle_admin_users-IsAdmin :
    (env : Passwords) (secret : String) (db : Db) (r : Request)
    → (((handle_admin_users env secret db r).1 ≡ db) ⊎ IsAdmin secret r)
      × (((handle_admin_aliases secret db r).1 ≡ db) ⊎ IsAdmin secret r)
      × (((handle_admin_lists secret db r).1 ≡ db) ⊎ IsAdmin secret r)
unfolding handle_admin_users handle_admin_aliases handle_admin_lists
handle_admin_users-IsAdmin env secret db r = (
  behind_secret-Guarded secret db r "/admin/users" (admin_user_action env),
  behind_secret-Guarded secret db r "/admin/aliases" admin_alias_action,
  behind_secret-Guarded secret db r "/admin/lists" admin_list_action,
)

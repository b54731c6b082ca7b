-- ===== src/Db/Rules.antt =====
-- The filter, auto-reply and app token operations of database.go.
use bdsmail.Base.{
  Bool, List, Option, String, [], any, first, if◌then◌else◌, keep, ltb, none, not, some, update, ℕ,
  ◌&&◌, ◌++◌, ◌+◌, ◌==◌, ◌||◌, ◌∷◌,
}
use bdsmail.Model.{AppToken, AutoReply, Filter}
use bdsmail.Db.Tables.{Db, ReplyLog, sort_desc}

unfoldable pub create_filter : Db → Filter → Option Db
create_filter db filter =
    if db.down || any (λ f. f.id == filter.id) db.mail_filter
    then none
    else some (record db { mail_filter = db.mail_filter ++ filter ∷ [] })

-- ORDER BY priority DESC
unfoldable pub list_filters : Db → String → Option (List Filter)
unfolding keep sort_desc
list_filters db user_email =
    if db.down
    then none
    else some (sort_desc (λ f. f.priority) (keep (λ f. f.user_email == user_email) db.mail_filter))

unfoldable pub update_filter : Db → Filter → Option Db
unfolding update
update_filter db filter =
    if db.down
    then none
    else some (record db {
      mail_filter =
          update (λ f. f.id == filter.id)
            (λ f. record f {
              name = filter.name;
              priority = filter.priority;
              conditions = filter.conditions;
              actions = filter.actions;
              enabled = filter.enabled;
            })
            db.mail_filter;
    })

unfoldable pub delete_filter : Db → String → Option Db
unfolding keep
delete_filter db id =
    if db.down
    then none
    else some (record db { mail_filter = keep (λ f. not (f.id == id)) db.mail_filter })

unfoldable pub get_auto_reply : Db → String → Option AutoReply
unfolding first
get_auto_reply db user_email =
    if db.down then none else first (λ r. r.user_email == user_email) db.auto_reply

unfoldable pub delete_auto_reply : Db → String → Option Db
unfolding keep
delete_auto_reply db user_email =
    if db.down
    then none
    else some
        (record db { auto_reply = keep (λ r. not (r.user_email == user_email)) db.auto_reply })

-- ON CONFLICT (user_email) DO UPDATE
unfoldable pub set_auto_reply : Db → AutoReply → Option Db
unfolding keep
set_auto_reply db reply =
    if db.down
    then none
    else some (record db {
      auto_reply = keep (λ r. not (r.user_email == reply.user_email)) db.auto_reply ++ reply ∷ [];
    })

abbrev pub is_log_of : String → String → ReplyLog → Bool
is_log_of user_email sender_email l = l.user_email == user_email && l.sender_email == sender_email

-- ON CONFLICT (user_email, sender_email) DO UPDATE SET sent_at = NOW()
unfoldable pub record_auto_reply_sent : Db → String → String → ℕ → Option Db
unfolding keep
record_auto_reply_sent db user_email sender_email now =
    if db.down
    then none
    else some (record db {
      auto_reply_log =
          keep (λ l. not (is_log_of user_email sender_email l)) db.auto_reply_log
          ++ record { user_email = user_email; sender_email = sender_email; sent_at = now } ∷ [];
    })

-- sent_at > now - cooldown
unfoldable pub has_auto_replied_recently : Db → String → String → ℕ → ℕ → Bool
has_auto_replied_recently db user_email sender_email cooldown now =
    not db.down
    && any (λ l. is_log_of user_email sender_email l && ltb now (l.sent_at + cooldown))
        db.auto_reply_log

unfoldable pub get_app_token_by_hash : Db → String → Option AppToken
unfolding first
get_app_token_by_hash db hash =
    if db.down then none else first (λ t. t.token_hash == hash) db.app_token

unfoldable pub update_token_last_used : Db → String → ℕ → Option Db
unfolding update
update_token_last_used db id now =
    if db.down
    then none
    else some (record db {
      app_token = update (λ t. t.id == id) (λ t. record t { last_used_at = now }) db.app_token;
    })

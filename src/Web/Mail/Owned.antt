-- ===== src/Web/Mail/Owned.antt =====
-- Whose messages the API shows, marks as seen and deletes.
use bdsmail.Base.{
  Bool, Bool-cases, List, Option-cases, String, [], ap, arith, clash, eq_iff, false, first,
  has_suffix, if_intro, if◌then◌else◌, inl, inr, none, refl, some, subst, sym, trim_prefix,
  trim_suffix, true, update, ◌==◌, ◌∙◌, ◌∷◌, ◌≡◌,
}
use bdsmail.Model.{Message, email}
use bdsmail.Db.{Db, get_message, list_attachments, mark_seen, or_same}
use bdsmail.Store.{MailStore}
use bdsmail.Store.Deletion.{one_gone}
use bdsmail.Web.Sessions.{Answer, Request, SessionStore, failed, get_session_user, status_ok}
use bdsmail.Web.Mail.{MailAnswer, answer, api_message, delete_own, file, lists, show_message, shows}

-- a message that is shown is this user's
abbrev pub ShowsOwn : String → MailAnswer → Type 0
ShowsOwn email (answer a) = Unit
ShowsOwn email (shows m) = (m.owner_user == email) ≡ true
ShowsOwn email (lists messages current pages unread) = Unit
ShowsOwn email (file content_type filename bytes) = Unit

first-update_apart {ℓ} :
    {A : Type ℓ} (p q : A → Bool) (f : A → A) (xs : List A)
    → ((x : A) → q x ≡ true → (p x ≡ false) × (p (f x) ≡ false))
    → first p (update q f xs) ≡ first p xs
unfolding first update
first-update_apart p q f [] apart = refl
first-update_apart p q f (x ∷ xs) apart = elim (Bool-cases (q x)) [
  | inl e ↦
      let (before, after) = apart x e in rw (e, before, after) (first-update_apart p q f xs apart)
  | inr e ↦ rw e (ap (λ rest. if p x then some x else rest) (first-update_apart p q f xs apart))
]

mark_seen_spares :
    (db : Db) (id other : String)
    → (id == other) ≡ false
    → get_message (or_same db (mark_seen db id)) other ≡ get_message db other
unfolding get_message list_attachments
mark_seen_spares db id other apart =
    let same =
      first-update_apart (λ (m : Message). m.id == other) (λ (m : Message). m.id == id)
        (λ m. record m { seen = true }) db.mail_content
        (λ m h. (clash m.id id other apart h, clash m.id id other apart h)) in
    elim (Bool-cases db.down) [
      | inl e ↦
          let unseen : mark_seen db id ≡ none = unfold mark_seen in simp e in
          ap (λ written. get_message (or_same db written) other) unseen
      | inr e ↦
          let seen : mark_seen db id
              ≡ some (record db {
                mail_content =
                    update (λ m. m.id == id) (λ m. record m { seen = true }) db.mail_content;
              }) =
            unfold mark_seen in simp e in
          ap (λ written. get_message (or_same db written) other) seen ∙ rw same refl
    ]

get_message-up :
    (db : Db) (id : String) (m : Message) → get_message db id ≡ some m → db.down ≡ false
unfolding get_message
get_message-up db id m h = ground (arith, h)

-- of two messages with one identifier
same_message :
    (db : Db) (id other : String) (m n : Message)
    → get_message db id ≡ some m
    → get_message db other ≡ some n
    → (id == other) ≡ true
    → m ≡ n
same_message db id other m n found found' e =
    let same : id ≡ other = (eq_iff id other).0 e in
    let found'' : get_message db id ≡ some n =
      subst (λ x. get_message db x ≡ some n) (sym same) found' in
    cc

module _ (s : MailStore) (email other : String) (m : Message)
    (found : get_message s.db other ≡ some m) (foreign : (m.owner_user == email) ≡ false) where
  abbrev Spares : MailAnswer × MailStore → Type 0
  Spares out = ShowsOwn email out.0 × (get_message out.1.db other ≡ some m)

  -- a message of the user has another identifier
  apart_from_own :
      (id : String) (n : Message)
      → get_message s.db id ≡ some n
      → (n.owner_user == email) ≡ true
      → (id == other) ≡ false
  apart_from_own id n own mine = elim (Bool-cases (id == other)) [
    | inl e ↦
        let same = same_message s.db id other n m own found e in
        absurd (ground (arith, mine, foreign, ap (λ (x : Message). x.owner_user == email) same))
    | inr e ↦ e
  ]

  show_message-Spares :
      (id : String) (missing : Answer)
      → Spares (
        (show_message s.db email id missing (get_message s.db id)).0,
        record s { db = (show_message s.db email id missing (get_message s.db id)).1 },
      )
  unfolding show_message
  show_message-Spares id missing = elim (Option-cases (get_message s.db id)) [
    | inl e ↦ rw (show_message, e) (tt, found)
    | inr (n, e) ↦ elim (Bool-cases (n.owner_user == email)) [
      | inl k ↦
          rw (show_message, e, k)
            (k, mark_seen_spares s.db id other (apart_from_own id n e k) ∙ found)
      | inr k ↦ rw (show_message, e, k) (tt, found)
    ]
  ]

  delete_own-Spares :
      (id : String) (missing error done : Answer)
      → get_message (delete_own s email id missing error done).1.db other ≡ some m
  unfolding delete_own
  delete_own-Spares id missing error done = elim (Option-cases (get_message s.db id)) [
    | inl e ↦ rw (delete_own, e) found
    | inr (n, e) ↦ elim (Bool-cases (n.owner_user == email)) [
      | inl k ↦
          rw (delete_own, e, k)
            (one_gone s id other (get_message-up s.db other m found)
              ∙ rw (apart_from_own id n e k) found)
      | inr k ↦ rw (delete_own, e, k) found
    ]
  ]

-- A message of somebody else is read as before after a request to the API for single messages,
-- whether it asks for a message or for a deletion, and a message that is shown is the user's.
pub api_message-ShowsOwn :
    (ss : SessionStore) (s : MailStore) (r : Request) (other : String) (m : Message)
    → get_message s.db other ≡ some m
    → (m.owner_user == get_session_user r.session ss) ≡ false
    → ShowsOwn (get_session_user r.session ss) (api_message ss s r).0
      × (get_message (api_message ss s r).1.db other ≡ some m)
unfolding api_message
api_message-ShowsOwn ss s r other m found foreign =
    let email = get_session_user r.session ss in
    let id = trim_prefix r.path "/api/messages/" in
    let P = Spares s email other m found foreign in
    if_intro P (email == "") (λ _. (tt, found))
      (λ _.
        if_intro P (has_suffix id "/delete")
          (λ _. (
            tt,
            delete_own-Spares s email other m found foreign (trim_suffix id "/delete") (failed 404)
                (failed 500) status_ok,
          ))
          (λ _. show_message-Spares s email other m found foreign id (failed 404)))

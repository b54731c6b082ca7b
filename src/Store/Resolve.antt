-- ===== src/Store/Resolve.antt =====
-- Aliases, catch-alls and the local recipients of a message (store.go).
use bdsmail.Base.{
  List, Option, String, [], has, if◌then◌else◌, none, some, suc, zero, ℕ, ◌++◌, ◌==◌, ◌∷◌,
}
use bdsmail.Db.{Db, get_alias, get_catch_all, split_email, user_exists_by_email}

unfoldable pub concat_map : (String → List String) → List String → List String
concat_map f [] = []
concat_map f (x ∷ xs) = f x ++ concat_map f xs

-- `err == nil && len(targets) > 0`: the targets, none where the code goes on
unfoldable pub targets_of : Option (List String) → List String
targets_of none = []
targets_of (some targets) = targets

-- The code counts `depth` up from 0 and stops above 10; the model counts the calls that are left.
unfoldable pub resolve_recipient : Db → ℕ → String → List String
resolve_recipient db zero email = email ∷ []
resolve_recipient db (suc left) email = elim (targets_of (get_alias db email)) [
  | t ∷ ts ↦ concat_map (resolve_recipient db left) (t ∷ ts)
  | [] ↦
      elim (if (split_email email).1 == ""
        then []
        else targets_of (get_catch_all db (split_email email).1)) [
          | t ∷ ts ↦ concat_map (resolve_recipient db left) (t ∷ ts)
          | [] ↦ (if user_exists_by_email db email then email ∷ [] else [])
        ]
]

abbrev pub max_calls : ℕ
max_calls = 11

-- the inner loop: `result` holds exactly the addresses that are marked in `seen`
unfoldable pub add_new : List String → List String → List String
unfolding has
add_new result [] = result
add_new result (r ∷ rest) = add_new (if has r result then result else result ++ r ∷ []) rest

unfoldable pub collect_from : Db → List String → List String → List String
unfolding add_new resolve_recipient
collect_from db result [] = result
collect_from db result (addr ∷ rest) =
    collect_from db (add_new result (resolve_recipient db max_calls addr)) rest

unfoldable pub collect_local_recipients : Db → List String → List String → List String → List String
unfolding collect_from
collect_local_recipients db to cc bcc = collect_from db [] (to ++ cc ++ bcc)

-- ===== src/Store/Recipients.antt =====
-- Correctness of the list of local recipients of a message: who is in it, and that it names nobody twice.
use bdsmail.Base.{
  Bool-cases, List, String, [], any, arith, eq_iff, false, has, has-append, inl, inr, refl, ◌++◌,
  ◌||◌, ◌∷◌, ◌≡◌,
}
use bdsmail.Db.{Db}
use bdsmail.Store.Resolve.{
  add_new, collect_from, collect_local_recipients, max_calls, resolve_recipient,
}

has-add_new :
    (r : String) (result xs : List String) → has r (add_new result xs) ≡ (has r result || has r xs)
unfolding has add_new
has-add_new r result [] = ground arith
has-add_new r result (x ∷ xs) = elim (Bool-cases (has x result)) [
  | inl e ↦ rw e (ground (arith, has-add_new r result xs, eq_iff x r, e))
  | inr e ↦ rw e (
      ground (arith, has-add_new r (result ++ x ∷ []) xs, has-append r result (x ∷ []), eq_iff x r))
]

has-collect_from :
    (db : Db) (r : String) (result addrs : List String)
    → has r (collect_from db result addrs)
      ≡ (has r result || any (λ a. has r (resolve_recipient db max_calls a)) addrs)
unfolding collect_from any
has-collect_from db r result [] = ground arith
has-collect_from db r result (a ∷ addrs) = ground (
  arith,
  has-collect_from db r (add_new result (resolve_recipient db max_calls a)) addrs,
  has-add_new r result (resolve_recipient db max_calls a),
)

-- no text twice
abbrev pub HasNoRepeats : List String → Type 0
HasNoRepeats [] = Unit
HasNoRepeats (x ∷ xs) = (has x xs ≡ false) × HasNoRepeats xs

append-HasNoRepeats :
    (r : String) (xs : List String)
    → has r xs ≡ false
    → HasNoRepeats xs
    → HasNoRepeats (xs ++ r ∷ [])
unfolding has
append-HasNoRepeats r [] h k = (refl, tt)
append-HasNoRepeats r (x ∷ xs) h (a, k) = (
  ground (arith, h, a, has-append x xs (r ∷ []), eq_iff x r, eq_iff r x),
  append-HasNoRepeats r xs (ground (arith, h)) k,
)

add_new-HasNoRepeats :
    (result xs : List String) → HasNoRepeats result → HasNoRepeats (add_new result xs)
unfolding add_new
add_new-HasNoRepeats result [] h = h
add_new-HasNoRepeats result (x ∷ xs) h = elim (Bool-cases (has x result)) [
  | inl e ↦ rw e (add_new-HasNoRepeats result xs h)
  | inr e ↦ rw e (add_new-HasNoRepeats (result ++ x ∷ []) xs (append-HasNoRepeats x result e h))
]

collect_from-HasNoRepeats :
    (db : Db) (result addrs : List String)
    → HasNoRepeats result
    → HasNoRepeats (collect_from db result addrs)
unfolding collect_from
collect_from-HasNoRepeats db result [] h = h
collect_from-HasNoRepeats db result (a ∷ addrs) h =
    collect_from-HasNoRepeats db (add_new result (resolve_recipient db max_calls a)) addrs
      (add_new-HasNoRepeats result (resolve_recipient db max_calls a) h)

-- The local recipients are exactly the addresses that some To, Cc or Bcc address resolves to, and none
-- of them stands in the list twice, whatever aliases overlap.
pub collect_local_recipients_lem :
    (db : Db) (to cc bcc : List String)
    → ((r : String)
        → has r (collect_local_recipients db to cc bcc)
          ≡ any (λ a. has r (resolve_recipient db max_calls a)) (to ++ cc ++ bcc))
      × HasNoRepeats (collect_local_recipients db to cc bcc)
unfolding collect_local_recipients has
collect_local_recipients_lem db to cc bcc = (
  λ r. has-collect_from db r [] (to ++ cc ++ bcc),
  collect_from-HasNoRepeats db [] (to ++ cc ++ bcc) tt,
)

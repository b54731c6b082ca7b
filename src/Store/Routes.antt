-- ===== src/Store/Routes.antt =====
-- Correctness of the resolution of recipients: which addresses a message for an address reaches.
use bdsmail.Base.{
  Bool-cases, List, String, [], ap, arith, if◌then◌else◌, inl, inr, refl, subst, suc, sym, true,
  zero, ℕ, ◌<◌, ◌==◌, ◌↔◌, ◌∷◌, ◌≡◌, ◌⊎◌,
}
use bdsmail.Db.{Db, get_alias, get_catch_all, split_email, user_exists_by_email}
use bdsmail.Store.Resolve.{concat_map, resolve_recipient, targets_of}
use mathlib.Core.List.{Memᴰ}
use mathlib.Core.List.Memᴰ

-- where an address is sent on to: its alias, or else its domain's catch-all
unfoldable pub forwards : Db → String → List String
forwards db email = elim (targets_of (get_alias db email)) [
  | t ∷ ts ↦ t ∷ ts
  | [] ↦
      (if (split_email email).1 == ""
        then []
        else targets_of (get_catch_all db (split_email email).1))
]

-- `Route db n a b`: from `a`, `n` forwards lead to `b`.
pub data Route (db : Db) : ℕ → String → String → Type 0 where
  here : (a : String) → Route db zero a a
  via :
      {n : ℕ} {b : String} (a t : String)
      → Memᴰ t (forwards db a)
      → Route db n t b
      → Route db (suc n) a b

concat_map_sound :
    (f : String → List String) (xs : List String) (y : String)
    → Memᴰ y (concat_map f xs)
    → (x : String) × Memᴰ x xs × Memᴰ y (f x)
unfolding concat_map
concat_map_sound f [] y m = elim m [ ]
concat_map_sound f (x ∷ xs) y m = elim (Memᴰ.append_cases (f x) m) [
  | inl k ↦ (x, Memᴰ.head refl, k)
  | inr k ↦ let (z, mem, found) = concat_map_sound f xs y k in (z, Memᴰ.tail mem, found)
]

concat_map_complete :
    (f : String → List String) (xs : List String) (x y : String)
    → Memᴰ x xs
    → Memᴰ y (f x)
    → Memᴰ y (concat_map f xs)
unfolding concat_map
concat_map_complete f [] x y m k = elim m [ ]
concat_map_complete f (z ∷ xs) x y (Memᴰ.head e) k =
    Memᴰ.append_left (concat_map f xs) (subst (λ w. Memᴰ y (f w)) e k)
concat_map_complete f (z ∷ xs) x y (Memᴰ.tail m) k =
    Memᴰ.append_right (f z) (concat_map_complete f xs x y m k)

-- what the addresses that `a` is forwarded to give
abbrev resolved : Db → ℕ → String → List String → List String
resolved db left a [] = if user_exists_by_email db a then a ∷ [] else []
resolved db left a (t ∷ ts) = concat_map (resolve_recipient db left) (t ∷ ts)

resolve-step :
    (db : Db) (left : ℕ) (a : String)
    → resolve_recipient db (suc left) a ≡ resolved db left a (forwards db a)
unfolding resolve_recipient forwards
resolve-step db left a =
    go (targets_of (get_alias db a))
      (if (split_email a).1 == "" then [] else targets_of (get_catch_all db (split_email a).1))
  where
    go :
        (alias other : List String)
        → elim alias as (λ l. List String) [
          | t ∷ ts ↦ concat_map (resolve_recipient db left) (t ∷ ts)
          | [] ↦ elim other as (λ l. List String) [
            | t ∷ ts ↦ concat_map (resolve_recipient db left) (t ∷ ts)
            | [] ↦ (if user_exists_by_email db a then a ∷ [] else [])
          ]
        ]
          ≡ resolved db left a (elim alias as (λ l. List String) [ t ∷ ts ↦ t ∷ ts | [] ↦ other ])
    go [] [] = refl
    go [] (t ∷ ts) = refl
    go (t ∷ ts) other = refl

-- Where the forwards from `a` end: at a user that is forwarded no further, or cut off after `left`.
pub record Reached (db : Db) (left : ℕ) (a b : String) : Type 0 where
  pub hops : ℕ
  pub route : Route db hops a b
  pub end :
      (hops ≡ left) ⊎ ((hops < left) × (forwards db b ≡ []) × (user_exists_by_email db b ≡ true))

further :
    (db : Db) (left : ℕ) (a t b : String)
    → Memᴰ t (forwards db a)
    → Reached db left t b
    → Reached db (suc left) a b
further db left a t b m r = record {
  hops = suc r.hops;
  route = via a t m r.route;
  end = elim r.end [ inl e ↦ inl (ap suc e) | inr (h, f, u) ↦ inr (omega arith, f, u) ];
}

in_one : (a b : String) → Memᴰ b (a ∷ []) → b ≡ a
in_one a b (Memᴰ.head e) = e
in_one a b (Memᴰ.tail m) = elim m [ ]

resolved_sound :
    (db : Db) (left : ℕ) (a b : String) (to : List String)
    → forwards db a ≡ to
    → ((t : String) → Memᴰ b (resolve_recipient db left t) → Reached db left t b)
    → Memᴰ b (resolved db left a to)
    → Reached db (suc left) a b
resolved_sound db left a b [] none_left rec m = elim (Bool-cases (user_exists_by_email db a)) [
  | inl e ↦
      let same : b ≡ a = in_one a b (rw e at m) in
      subst (λ x. Reached db (suc left) a x) (sym same)
        (record { hops = zero; route = here a; end = inr (omega arith, none_left, e) })
  | inr e ↦ absurd (Memᴰ.not-nil (rw e at m))
]
resolved_sound db left a b (t ∷ ts) e rec m =
    let (x, mem, found) = concat_map_sound (resolve_recipient db left) (t ∷ ts) b m in
    further db left a x b (subst (λ l. Memᴰ x l) (sym e) mem) (rec x found)

resolve_sound :
    (db : Db) (left : ℕ) (a b : String) → Memᴰ b (resolve_recipient db left a) → Reached db left a b
unfolding resolve_recipient
resolve_sound db zero a b m =
    subst (λ x. Reached db zero a x) (sym (in_one a b m))
      (record { hops = zero; route = here a; end = inl refl })
resolve_sound db (suc left) a b m =
    resolved_sound db left a b (forwards db a) refl (λ t. resolve_sound db left t b)
      (subst (λ l. Memᴰ b l) (resolve-step db left a) m)

resolved_complete :
    (db : Db) (left : ℕ) (a t b : String) (to : List String)
    → Memᴰ t to
    → Memᴰ b (resolve_recipient db left t)
    → Memᴰ b (resolved db left a to)
resolved_complete db left a t b [] m k = elim m [ ]
resolved_complete db left a t b (x ∷ xs) m k =
    concat_map_complete (resolve_recipient db left) (x ∷ xs) t b m k

stays :
    (db : Db) (left : ℕ) (a : String)
    → forwards db a ≡ []
    → user_exists_by_email db a ≡ true
    → Memᴰ a (resolve_recipient db (suc left) a)
stays db left a f u = rw (resolve-step db left a, f, u) (Memᴰ.head refl)

resolve_complete :
    (db : Db) (left n : ℕ) (a b : String)
    → Route db n a b
    → (n ≡ left) ⊎ ((n < left) × (forwards db b ≡ []) × (user_exists_by_email db b ≡ true))
    → Memᴰ b (resolve_recipient db left a)
unfolding resolve_recipient
resolve_complete db zero zero a b (here _) end = Memᴰ.head refl
resolve_complete db (suc left) zero a b (here _) (inl e) = absurd (omega (arith, e))
resolve_complete db (suc left) zero a b (here _) (inr (h, f, u)) = stays db left a f u
resolve_complete db zero (suc n) a b (via _ t m r) (inl e) = absurd (omega (arith, e))
resolve_complete db zero (suc n) a b (via _ t m r) (inr (h, f, u)) = absurd (omega (arith, h))
resolve_complete db (suc left) (suc n) a b (via _ t m r) end =
    subst (λ l. Memᴰ b l) (sym (resolve-step db left a))
      (resolved_complete db left a t b (forwards db a) m
        (resolve_complete db left n t b r (shorter end)))
  where
    shorter :
        (suc n ≡ suc left)
          ⊎ ((suc n < suc left) × (forwards db b ≡ []) × (user_exists_by_email db b ≡ true))
        → (n ≡ left) ⊎ ((n < left) × (forwards db b ≡ []) × (user_exists_by_email db b ≡ true))
    shorter (inl e) = inl (omega (arith, e))
    shorter (inr (h, f, u)) = inr (omega (arith, h), f, u)

-- An address is among the resolved ones exactly when forwards through aliases and catch-alls lead to
-- it: in fewer steps than the depth allows, where it is an existing user's and is forwarded no further,
-- or in exactly as many steps, whether or not it exists.
pub resolve_recipient-Reached :
    (db : Db) (left : ℕ) (a b : String) → Memᴰ b (resolve_recipient db left a) ↔ Reached db left a b
resolve_recipient-Reached db left a b =
    (resolve_sound db left a b, λ r. resolve_complete db left r.hops a b r.route r.end)

-- ===== src/Base/Lists.antt =====
-- Lists measured and indexed by native numbers, and membership of texts.
use Prim.Native.Nat.{ℕ, zero, suc, ◌+◌, ◌≤◌, ◌<◌}
use Prim.Native.String.{String}
use text.Mathlib.Text.{◌==◌}
use text.Mathlib.TextEquality.{eq_iff}
use mathlib.Core.Path.{◌≡◌, refl, ap}
use mathlib.Core.Bool.{Bool, true, false, not, ◌||◌, false≢true}
use mathlib.Core.List.{List, [], ◌∷◌, ◌++◌, Memᴰ}
use mathlib.Core.Logic.{inl, inr}
use mathlib.Core.Option.{Option, none, some}
use native.Mathlib.Omega.{arith}
use bdsmail.Base.Tests.{Bool-cases, if◌then◌else◌}

module _ {ℓ} {A : Type ℓ} where
  abbrev pub length : List A → ℕ
  length [] = 0
  length (x ∷ xs) = suc (length xs)

  abbrev pub get_elem? : List A → ℕ → Option A
  get_elem? [] i = none
  get_elem? (x ∷ xs) zero = some x
  get_elem? (x ∷ xs) (suc i) = get_elem? xs i

  abbrev pub take : ℕ → List A → List A
  take zero xs = []
  take (suc n) [] = []
  take (suc n) (x ∷ xs) = x ∷ take n xs

  abbrev pub drop : ℕ → List A → List A
  drop zero xs = xs
  drop (suc n) [] = []
  drop (suc n) (x ∷ xs) = drop n xs

  -- A write out of bounds changes nothing.
  abbrev pub set : List A → ℕ → A → List A
  set [] i v = []
  set (x ∷ xs) zero v = v ∷ xs
  set (x ∷ xs) (suc i) v = x ∷ set xs i v

  abbrev pub is_nil : List A → Bool
  is_nil [] = true
  is_nil (x ∷ xs) = false

  -- the entries that pass a Boolean test
  unfoldable pub keep : (A → Bool) → List A → List A
  keep p [] = []
  keep p (x ∷ xs) = let rest = keep p xs in if p x then x ∷ rest else rest

  unfoldable pub any : (A → Bool) → List A → Bool
  any p [] = false
  any p (x ∷ xs) = p x || any p xs

  unfoldable pub first : (A → Bool) → List A → Option A
  first p [] = none
  first p (x ∷ xs) = if p x then some x else first p xs

  -- rewrite the entries that pass a test
  unfoldable pub update : (A → Bool) → (A → A) → List A → List A
  update p f [] = []
  update p f (x ∷ xs) = (if p x then f x else x) ∷ update p f xs

  pub length-append : (xs ys : List A) → length (xs ++ ys) ≡ length xs + length ys
  length-append [] ys = omega arith
  length-append (x ∷ xs) ys = omega (arith, length-append xs ys)

  pub length-set : (xs : List A) (i : ℕ) (v : A) → length (set xs i v) ≡ length xs
  length-set [] i v = refl
  length-set (x ∷ xs) zero v = refl
  length-set (x ∷ xs) (suc i) v = ap suc (length-set xs i v)

  pub length-keep-le : (p : A → Bool) (xs : List A) → length (keep p xs) ≤ length xs
  unfolding keep
  length-keep-le p [] = omega arith
  length-keep-le p (x ∷ xs) = ground (arith, length-keep-le p xs)

  pub get_elem?_below : (xs : List A) (i : ℕ) → i < length xs → (a : A) × (get_elem? xs i ≡ some a)
  get_elem?_below [] i h = elim h [ ]
  get_elem?_below (x ∷ xs) zero h = (x, refl)
  get_elem?_below (x ∷ xs) (suc i) h = get_elem?_below xs i (omega arith)

module _ {ℓ} {A : Type ℓ} (p : A → Bool) where
  pub any_sound : (xs : List A) → any p xs ≡ true → (x : A) × Memᴰ x xs × (p x ≡ true)
  unfolding any
  any_sound [] h = absurd (false≢true h)
  any_sound (x ∷ xs) h = elim (Bool-cases (p x)) [
    | inl e ↦ (x, Memᴰ.head refl, e)
    | inr e ↦ let (y, m, q) = any_sound xs (ground (arith, h, e)) in (y, Memᴰ.tail m, q)
  ]

  pub any_complete : (x : A) (xs : List A) → Memᴰ x xs → p x ≡ true → any p xs ≡ true
  unfolding any
  any_complete x [] m q = elim m [ ]
  any_complete x (y ∷ ys) (Memᴰ.head e) q = ground (arith, ap p e, q)
  any_complete x (y ∷ ys) (Memᴰ.tail m) q = ground (arith, any_complete x ys m q)

module _ {ℓ} {A : Type ℓ} (p q : A → Bool) where
  -- An entry is found as before where only entries are dropped that are not looked for.
  pub first-keep_apart :
      (xs : List A) → ((x : A) → p x ≡ true → q x ≡ true) → first p (keep q xs) ≡ first p xs
  unfolding first keep
  first-keep_apart [] h = refl
  first-keep_apart (x ∷ xs) h = elim (Bool-cases (p x)) [
    | inl e ↦ rw (h x e, e) refl
    | inr e ↦ elim (Bool-cases (q x)) [
      | inl k ↦ rw (k, e) (first-keep_apart xs h)
      | inr k ↦ rw (k, e) (first-keep_apart xs h)
    ]
  ]

  pub keep-keep_apart :
      (xs : List A) → ((x : A) → p x ≡ true → q x ≡ true) → keep p (keep q xs) ≡ keep p xs
  unfolding keep
  keep-keep_apart [] h = refl
  keep-keep_apart (x ∷ xs) h = elim (Bool-cases (p x)) [
    | inl e ↦ rw (h x e, e) (ap (λ (l : List A). x ∷ l) (keep-keep_apart xs h))
    | inr e ↦ elim (Bool-cases (q x)) [
      | inl k ↦ rw (k, e) (keep-keep_apart xs h)
      | inr k ↦ rw (k, e) (keep-keep_apart xs h)
    ]
  ]

module _ {ℓ} {A : Type ℓ} (p : A → Bool) where
  pub first-keep_gone : (xs : List A) → first p (keep (λ x. not (p x)) xs) ≡ none
  unfolding first keep
  first-keep_gone [] = refl
  first-keep_gone (x ∷ xs) = elim (Bool-cases (p x)) [
    | inl e ↦ rw e (first-keep_gone xs)
    | inr e ↦ rw (e, e) (first-keep_gone xs)
  ]

  pub keep-keep_gone : (xs : List A) → keep p (keep (λ x. not (p x)) xs) ≡ []
  unfolding keep
  keep-keep_gone [] = refl
  keep-keep_gone (x ∷ xs) = elim (Bool-cases (p x)) [
    | inl e ↦ rw e (keep-keep_gone xs)
    | inr e ↦ rw (e, e) (keep-keep_gone xs)
  ]

  pub first-append_new :
      (x : A) (xs : List A)
      → first p xs ≡ none
      → p x ≡ true
      → (any p xs ≡ false) × (first p (xs ++ x ∷ []) ≡ some x)
  unfolding first any
  first-append_new x [] h e = (refl, rw e refl)
  first-append_new x (y ∷ ys) h e = elim (Bool-cases (p y)) [
    | inl k ↦ absurd (ground (arith, k, h))
    | inr k ↦
        let more = first-append_new x ys (rw k at h) e in (ground (arith, k, more.0), rw k more.1)
  ]

  pub first-update :
      (f : A → A) (xs : List A) (a : A)
      → ((x : A) → p (f x) ≡ p x)
      → first p xs ≡ some a
      → first p (update p f xs) ≡ some (f a)
  unfolding first update
  first-update f [] a same h = absurd (no_first h)
    where
      no_first : none ≡ some a → ⊥
      no_first e = ground (arith, e)
  first-update f (x ∷ xs) a same h = elim (Bool-cases (p x)) [
    | inl e ↦ rw (e, same x, e) (ap some (ap f (found (rw e at h))))
    | inr e ↦ rw (e, e) (first-update f xs a same (rw e at h))
  ]
    where
      found : some x ≡ some a → x ≡ a
      found e = ground (arith, e)

-- A predicate on every entry, by recursion.
module _ {ℓ κ} {A : Type ℓ} (P : A → Type κ) where
  abbrev pub All : List A → Type κ
  All [] = Unit
  All (x ∷ xs) = P x × All xs

  pub All-append : (xs ys : List A) → All xs → All ys → All (xs ++ ys)
  All-append [] ys h k = k
  All-append (x ∷ xs) ys (p, h) k = (p, All-append xs ys h k)

module _ {ℓ κ ι} {A : Type ℓ} {P : A → Type κ} {Q : A → Type ι} where
  pub All-mono : (xs : List A) → ((x : A) → P x → Q x) → All P xs → All Q xs
  All-mono [] f h = tt
  All-mono (x ∷ xs) f (p, h) = (f x p, All-mono xs f h)

-- a text does not equal two texts that differ
pub clash : (s t u : String) → (t == u) ≡ false → (s == t) ≡ true → (s == u) ≡ false
clash s t u d h = ground (arith, eq_iff s t, eq_iff s u, eq_iff t u)

-- membership of texts
unfoldable pub has : String → List String → Bool
has k [] = false
has k (x ∷ xs) = x == k || has k xs

-- the entries other than `k`
unfoldable pub without : String → List String → List String
without k [] = []
without k (x ∷ xs) = let rest = without k xs in if x == k then rest else x ∷ rest

pub has-without :
    (k j : String) (xs : List String) → has j (without k xs) ≡ (if k == j then false else has j xs)
unfolding has without
has-without k j [] = ground arith
has-without k j (x ∷ xs) = ground (arith, eq_iff k j, eq_iff x k, eq_iff x j, has-without k j xs)

pub has-append : (k : String) (xs ys : List String) → has k (xs ++ ys) ≡ (has k xs || has k ys)
unfolding has
has-append k [] ys = refl
has-append k (x ∷ xs) ys = ground (arith, has-append k xs ys)

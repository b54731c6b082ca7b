-- ===== src/Base/Members.antt =====
-- What passes from a list to the lists that are made of it.
use mathlib.Core.Path.{◌≡◌, refl, subst}
use mathlib.Core.Bool.{Bool, true, ◌||◌}
use mathlib.Core.List.{List, [], ◌∷◌, ◌++◌, Memᴰ}
use mathlib.Core.Logic.{◌⊎◌, inl, inr}
use native.Mathlib.Omega.{arith}
use bdsmail.Base.Tests.{Bool-cases}
use mathlib.Core.Option.{none, some}
use bdsmail.Base.Lists.{any, first, keep}

module _ {ℓ} {A : Type ℓ} (p q : A → Bool) where
  pub any-keep : (xs : List A) → any p (keep q xs) ≡ true → any p xs ≡ true
  unfolding any keep
  any-keep [] h = h
  any-keep (x ∷ xs) h = elim (Bool-cases (q x)) [
    | inl e ↦ ground (arith, h, e, any-keep xs)
    | inr e ↦ ground (arith, any-keep xs (rw e at h))
  ]

pub any-append {ℓ} :
    {A : Type ℓ} (p : A → Bool) (xs ys : List A) → any p (xs ++ ys) ≡ (any p xs || any p ys)
unfolding any
any-append p [] ys = refl
any-append p (x ∷ xs) ys = ground (arith, any-append p xs ys)

mem_cons {ℓ} : {A : Type ℓ} (a x : A) (ys : List A) → Memᴰ a (x ∷ ys) → (a ≡ x) ⊎ Memᴰ a ys
mem_cons a x ys (Memᴰ.head e) = inl e
mem_cons a x ys (Memᴰ.tail m) = inr m

pub mem-keep {ℓ} :
    {A : Type ℓ} (q : A → Bool) (a : A) (xs : List A) → Memᴰ a (keep q xs) → Memᴰ a xs
unfolding keep
mem-keep q a [] m = m
mem-keep q a (x ∷ xs) m = elim (Bool-cases (q x)) [
  | inl e ↦ elim (mem_cons a x (keep q xs) (rw e at m)) [
    | inl h ↦ Memᴰ.head h
    | inr k ↦ Memᴰ.tail (mem-keep q a xs k)
  ]
  | inr e ↦ Memᴰ.tail (mem-keep q a xs (rw e at m))
]

pub mem-append_one {ℓ} :
    {A : Type ℓ} (a y : A) (xs : List A) → Memᴰ a (xs ++ y ∷ []) → Memᴰ a xs ⊎ (a ≡ y)
mem-append_one a y [] m = elim (mem_cons a y [] m) [ inl e ↦ inr e | inr k ↦ inl k ]
mem-append_one a y (x ∷ xs) m = elim (mem_cons a x (xs ++ y ∷ []) m) [
  | inl e ↦ inl (Memᴰ.head e)
  | inr k ↦ elim (mem-append_one a y xs k) [ inl l ↦ inl (Memᴰ.tail l) | inr e ↦ inr e ]
]

-- what is found only after an entry is added is that entry
pub first-append_one {ℓ} :
    {A : Type ℓ} (p : A → Bool) (y z : A) (xs : List A)
    → first p xs ≡ none
    → first p (xs ++ y ∷ []) ≡ some z
    → p y ≡ true
unfolding first
first-append_one p y z [] h e = ground (arith, e)
first-append_one p y z (x ∷ xs) h e = elim (Bool-cases (p x)) [
  | inl k ↦ absurd (ground (arith, h, k))
  | inr k ↦ first-append_one p y z xs (rw k at h) (rw k at e)
]

pub any_of_first {ℓ} :
    {A : Type ℓ} (p : A → Bool) (a : A) (xs : List A) → first p xs ≡ some a → any p xs ≡ true
unfolding first any
any_of_first p a [] h = ground (arith, h)
any_of_first p a (x ∷ xs) h = elim (Bool-cases (p x)) [
  | inl e ↦ ground (arith, e)
  | inr e ↦ ground (arith, e, any_of_first p a xs (rw e at h))
]

pub first_sound {ℓ} :
    {A : Type ℓ} (p : A → Bool) (a : A) (xs : List A) → first p xs ≡ some a → p a ≡ true
unfolding first
first_sound {A = A} p a [] h = absurd (ground (arith, h))
first_sound {A = A} p a (x ∷ xs) h = elim (Bool-cases (p x)) [
  | inl e ↦ subst (λ y. p y ≡ true) (some_injective x a (rw e at h)) e
  | inr e ↦ first_sound p a xs (rw e at h)
]
  where
    some_injective : (x a : A) → some x ≡ some a → x ≡ a
    some_injective x a e = cc

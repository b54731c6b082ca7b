-- ===== src/Imap/Flags/Updates.antt =====
-- Two rewrites of a list as one.

use bdsmail.Base.{
  Bool, Bool-cases, List, [], ap, false, if◌then◌else◌, inl, inr, refl, update, ◌||◌, ◌∷◌, ◌≡◌,
}

module _ {ℓ} {A : Type ℓ} where
  -- two rewrites by the same idempotent function are one
  pub update-update_or :
      (p q : A → Bool) (f : A → A) (xs : List A)
      → ((x : A) → f (f x) ≡ f x)
      → ((x : A) → q (f x) ≡ q x)
      → update q f (update p f xs) ≡ update (λ x. p x || q x) f xs
  unfolding update
  update-update_or p q f [] twice same = refl
  update-update_or p q f (x ∷ xs) twice same =
      let e = update-update_or p q f xs twice same in
      let head : (if q (if p x then f x else x)
            then f (if p x then f x else x)
            else (if p x then f x else x))
          ≡ (if p x || q x then f x else x) =
        elim (Bool-cases (p x)) [
          | inl a ↦ elim (Bool-cases (q x)) [
            | inl b ↦ rw (a, same x, b) (twice x)
            | inr b ↦ rw (a, same x, b) refl
          ]
          | inr a ↦ rw a refl
        ] in
      λ i. head i ∷ e i

  pub update-update_seq :
      (p : A → Bool) (f g : A → A) (xs : List A)
      → ((x : A) → p (f x) ≡ p x)
      → update p g (update p f xs) ≡ update p (λ x. g (f x)) xs
  unfolding update
  update-update_seq p f g [] same = refl
  update-update_seq p f g (x ∷ xs) same =
      let e = update-update_seq p f g xs same in
      let head : (if p (if p x then f x else x)
            then g (if p x then f x else x)
            else (if p x then f x else x))
          ≡ (if p x then g (f x) else x) =
        elim (Bool-cases (p x)) [ inl a ↦ rw (a, same x, a) refl | inr a ↦ rw (a, a) refl ] in
      λ i. head i ∷ e i

  pub update_same : (p : A → Bool) (xs : List A) → update p (λ x. x) xs ≡ xs
  unfolding update
  update_same p [] = refl
  update_same p (x ∷ xs) =
      let e = update_same p xs in
      elim (Bool-cases (p x)) [
        | inl a ↦ rw a (ap (λ (l : List A). x ∷ l) e)
        | inr a ↦ rw a (ap (λ (l : List A). x ∷ l) e)
      ]

  pub update_none : (f : A → A) (xs : List A) → update (λ x. false) f xs ≡ xs
  unfolding update
  update_none f [] = refl
  update_none f (x ∷ xs) = ap (λ (l : List A). x ∷ l) (update_none f xs)

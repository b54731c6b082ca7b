-- ===== src/Web/Paging/Bounds.antt =====
-- No page is out of bounds, and each message is on a page.
use native.Mathlib.Nat.{suc-add, zero-add}
use bdsmail.Base.{
  Bool-cases, List, Option, [], ap, arith, drop, false, get_elem?, if◌then◌else◌, inl, inr, leb,
  length, lt_ℤ, ltb, negsuc, none, pos, refl, some, suc, sym, take, true, zero, ℕ, ℤ, ◌&&◌, ◌*◌,
  ◌+◌, ◌-◌, ◌<◌, ◌∙◌, ◌∷◌, ◌≡◌, ◌≤◌, ◌⊎◌,
}
use bdsmail.Web.Paging.{
  clamp_page, page_end, page_of, page_start, paginate_messages, slice_list, total_pages,
}

paginate_test :
    let pages : Option (List ℕ) × ℤ × ℕ = (some (3 ∷ 4 ∷ []), pos 1, 1) in
    (paginate_messages (3 ∷ 4 ∷ []) (pos 7) ≡ pages)
    × (paginate_messages (3 ∷ 4 ∷ []) (negsuc 7) ≡ pages)
unfolding paginate_messages page_of page_start page_end slice_list total_pages clamp_page
paginate_test = (refl, refl)

get_elem?-drop {ℓ} :
    {A : Type ℓ} (n i : ℕ) (xs : List A) → get_elem? (drop n xs) i ≡ get_elem? xs (n + i)
get_elem?-drop zero i xs = simp zero-add refl
get_elem?-drop (suc n) i [] = refl
get_elem?-drop (suc n) i (x ∷ xs) = simp suc-add (get_elem?-drop n i xs)

get_elem?-take {ℓ} :
    {A : Type ℓ} (n i : ℕ) (xs : List A) → i < n → get_elem? (take n xs) i ≡ get_elem? xs i
get_elem?-take zero i xs h = absurd (omega arith)
get_elem?-take (suc n) i [] h = refl
get_elem?-take (suc n) zero (x ∷ xs) h = refl
get_elem?-take (suc n) (suc i) (x ∷ xs) h = get_elem?-take n i xs (omega arith)

get_elem?_past {ℓ} : {A : Type ℓ} (n : ℕ) (xs : List A) → length xs ≤ n → get_elem? xs n ≡ none
get_elem?_past n [] h = refl
get_elem?_past zero (x ∷ xs) h = absurd (omega arith)
get_elem?_past (suc n) (x ∷ xs) h = get_elem?_past n xs (omega arith)

length-take_le {ℓ} : {A : Type ℓ} (n : ℕ) (xs : List A) → length (take n xs) ≤ n
length-take_le zero xs = omega arith
length-take_le (suc n) [] = omega arith
length-take_le (suc n) (x ∷ xs) = omega (arith, length-take_le n xs)

-- as many pages as the messages fill, but at least one
abbrev pub AreNeeded : ℕ → ℕ → Type 0
AreNeeded total pages =
    (total ≤ pages * 50) × ((pages ≡ 1) ⊎ ((pages - 1) * 50 < total)) × (1 ≤ pages)

total_pages-AreNeeded : (total : ℕ) → AreNeeded total (total_pages total)
unfolding total_pages
total_pages-AreNeeded total = (ground arith, ground arith, ground arith)

-- the page that is shown is the one that was asked for, or the nearest that there is
abbrev pub IsNearest : ℤ → ℕ → ℕ → Type 0
IsNearest page pages current =
    (1 ≤ current)
    × (current ≤ pages)
    × (lt_ℤ page (pos 1) ≡ true → current ≡ 1)
    × (lt_ℤ (pos pages) page ≡ true → current ≡ pages)
    × (lt_ℤ page (pos 1) ≡ false → lt_ℤ (pos pages) page ≡ false → page ≡ pos current)

clamp_page-IsNearest :
    (page : ℤ) (pages : ℕ)
    → 1 ≤ pages
    → (current : ℕ) × (clamp_page page pages ≡ pos current) × IsNearest page pages current
unfolding clamp_page
clamp_page-IsNearest (negsuc n) pages some_page =
    (1, ground arith, (ground arith, ground arith, ground arith, ground arith, ground arith))
clamp_page-IsNearest (pos n) pages some_page = elim (Bool-cases (ltb n 1)) [
  | inl low ↦
      (1, ground arith, (ground arith, ground arith, ground arith, ground arith, ground arith))
  | inr in_range ↦ elim (Bool-cases (ltb pages n)) [
    | inl high ↦ (
      pages,
      ground arith,
      (ground arith, ground arith, ground arith, ground arith, ground arith),
    )
    | inr low ↦
        (n, ground arith, (ground arith, ground arith, ground arith, ground arith, λ a b. refl))
  ]
]

-- the messages from this place on, at most a page of them
abbrev pub IsPage {ℓ} : {A : Type ℓ} → List A → ℕ → List A → Type ℓ
IsPage messages current paged =
    (length paged ≤ 50)
    × ((i : ℕ) → i < 50 → get_elem? paged i ≡ get_elem? messages ((current - 1) * 50 + i))

abbrev slice_end : ℕ → ℕ → ℕ
slice_end total n = if ltb total (n * 50 + 50) then total else n * 50 + 50

page_of-slice {ℓ} :
    {A : Type ℓ} (messages : List A) (n : ℕ)
    → n * 50 ≤ length messages
    → page_of messages (pos (suc n))
      ≡ some (take (slice_end (length messages) n - n * 50) (drop (n * 50) messages))
unfolding page_of slice_list page_start page_end
page_of-slice messages n begins =
    let total = length messages in
    elim (Bool-cases (ltb total (n * 50 + 50))) [
      | inl e ↦
          let inside : leb (n * 50) total && leb total total ≡ true = ground (arith, begins) in
          rw e (rw inside refl)
      | inr e ↦
          let inside : leb (n * 50) (n * 50 + 50) && leb (n * 50 + 50) total ≡ true =
            ground (arith, e) in
          rw e (rw inside refl)
    ]

page_of-IsPage {ℓ} :
    {A : Type ℓ} (messages : List A) (current pages : ℕ)
    → AreNeeded (length messages) pages
    → 1 ≤ current
    → current ≤ pages
    → (paged : List A) × (page_of messages (pos current) ≡ some paged)
      × IsPage messages current paged
page_of-IsPage messages zero pages needed low high = absurd (omega arith)
page_of-IsPage messages (suc n) pages (enough, few, one) low high =
    let total = length messages in
    let start = n * 50 in
    let end = slice_end total n in
    let begins : start ≤ total = elim few [ inl e ↦ omega arith | inr below ↦ omega arith ] in
    let rest = drop start messages in
    let most = length-take_le (end - start) rest in
    let short : end - start ≤ 50 = ground arith in
    (
      take (end - start) rest,
      page_of-slice messages n begins,
      (
        omega (arith, most, short),
        λ i below.
            let place : start + i ≡ (suc n - 1) * 50 + i = omega arith in
            elim (Bool-cases (ltb i (end - start))) [
              | inl inside ↦
                  get_elem?-take (end - start) i rest (ground arith)
                  ∙ get_elem?-drop start i messages
              | inr outside ↦
                  let past : total ≤ start + i = ground arith in
                  get_elem?_past i (take (end - start) rest) (ground (arith, most))
                  ∙ sym (get_elem?_past (start + i) messages past)
            ]
            ∙ ap (get_elem? messages) place,
      ),
    )

-- Whatever page of a list of messages is asked for, a negative one included, the slice does not panic:
-- the page with the nearest number that there is comes back with this number, and with the messages of
-- the list from its place on, at most 50. There are as many pages as the messages fill, at least one.
pub paginate_messages_lem {ℓ} :
    {A : Type ℓ} (messages : List A) (page : ℤ)
    → (current : ℕ) × (pages : ℕ) × (paged : List A) × (paginate_messages messages page
        ≡ (some paged, pos current, pages))
      × AreNeeded (length messages) pages
      × IsNearest page pages current
      × IsPage messages current paged
unfolding paginate_messages
paginate_messages_lem messages page =
    let pages = total_pages (length messages) in
    let needed = total_pages-AreNeeded (length messages) in
    let (current, clamped, nearest) = clamp_page-IsNearest page pages needed.2 in
    let (paged, sliced, is_page) =
      page_of-IsPage messages current pages needed nearest.0 nearest.1 in
    (current, pages, paged, rw (clamped, sliced) refl, needed, nearest, is_page)

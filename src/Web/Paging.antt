-- ===== src/Web/Paging.antt =====
-- The pages of a list of messages (paginateMessages of internal/web/handlers.go).
pub mod Bounds
use bdsmail.Base.{
  List, Option, drop, if◌then◌else◌, leb, length, lt_ℤ, ltb, nat_beq, negsuc, none, pos, some, suc,
  take, zero, ℕ, ℤ, ◌&&◌, ◌*◌, ◌+◌, ◌-◌, ◌/◌,
}

abbrev pub messages_per_page : ℕ
messages_per_page = 50

-- xs[start:end], none where the bounds make it panic
unfoldable pub slice_list {ℓ} : {A : Type ℓ} → List A → ℤ → ℤ → Option (List A)
slice_list xs (pos start) (pos end) =
    if leb start end && leb end (length xs) then some (take (end - start) (drop start xs)) else none
slice_list xs start end = none

unfoldable pub total_pages : ℕ → ℕ
total_pages total =
    let pages = (total + messages_per_page - 1) / messages_per_page in
    if nat_beq pages 0 then 1 else pages

-- the page that is shown where this one is asked for
unfoldable pub clamp_page : ℤ → ℕ → ℤ
clamp_page page pages =
    let page' = if lt_ℤ page (pos 1) then pos 1 else page in
    if lt_ℤ (pos pages) page' then pos pages else page'

-- (page - 1) * messagesPerPage
unfoldable pub page_start : ℤ → ℤ
page_start (pos zero) = negsuc (messages_per_page - 1)
page_start (pos (suc n)) = pos (n * messages_per_page)
page_start (negsuc n) = negsuc ((n + 2) * messages_per_page - 1)

-- start + messagesPerPage
unfoldable pub page_end : ℤ → ℤ
page_end (pos start) = pos (start + messages_per_page)
page_end (negsuc n) =
    if ltb n messages_per_page
    then pos (messages_per_page - (n + 1))
    else negsuc (n - messages_per_page)

-- messages[start:end]
unfoldable pub page_of {ℓ} : {A : Type ℓ} → List A → ℤ → Option (List A)
page_of messages current =
    let total = pos (length messages) in
    let start = page_start current in
    let end = page_end start in slice_list messages start (if lt_ℤ total end then total else end)

-- the messages of the page, its number and the number of pages
unfoldable pub paginate_messages {ℓ} : {A : Type ℓ} → List A → ℤ → Option (List A) × ℤ × ℕ
paginate_messages messages page =
    let pages = total_pages (length messages) in
    let current = clamp_page page pages in (page_of messages current, current, pages)

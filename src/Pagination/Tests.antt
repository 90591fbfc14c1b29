-- ===== src/Pagination/Tests.antt =====
-- Five rows in pages of two.
use aerobi_api.Common.{◌≡◌, refl, List, [], ◌∷◌, ℕ, ◌≤◌, length, arith}
use aerobi_api.Pagination.{pagination_metadata}
use aerobi_api.Pagination.Pages.{page_of, first_pages, granted, pages_whole}

abbrev five : List ℕ
five = 1 ∷ 2 ∷ 3 ∷ 4 ∷ 5 ∷ []

last_page : page_of 200 2 3 five ≡ 5 ∷ []
unfolding page_of
last_page = refl

pages_example :
    (first_pages 200 2 (pagination_metadata 1 (granted 200 2) (length five)).total_pages five
      ≡ five)
    × ((number : ℕ) → length (page_of 200 2 number five) ≤ 200)
pages_example = pages_whole 200 2 five (omega arith)

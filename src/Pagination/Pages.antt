-- ===== src/Pagination/Pages.antt =====
-- Walking through the pages of a listing.
use native.Mathlib.Nat.{mod-lt, div-add-mod}
use aerobi_api.Common.{
  ◌≡◌, refl, sym, ap, ◌∙◌, List, [], ◌∷◌, ◌++◌, none, some, ℕ, zero, suc, ◌+◌, ◌-◌, ◌*◌, ◌≤◌, ◌<◌,
  arith, take, drop, length,
}
use aerobi_api.Pagination.{resolve_pagination_params, pagination_metadata, find_many, ceil_div}

module _ {A : Type 0} where
  take-nil : (n : ℕ) → take {A = A} n [] ≡ []
  take-nil zero = refl
  take-nil (suc n) = refl

  take-add : (m n : ℕ) (xs : List A) → take (m + n) xs ≡ take m xs ++ take n (drop m xs)
  take-add zero n xs = ap (λ k. take k xs) (zero-lem n)
    where
      zero-lem : (n : ℕ) → 0 + n ≡ n
      zero-lem n = omega arith
  take-add (suc m) n [] = let e : suc m + n ≡ suc (m + n) = omega arith in rw e (sym (take-nil n))
  take-add (suc m) n (x ∷ xs) =
      let e : suc m + n ≡ suc (m + n) = omega arith in rw e (ap (λ t. x ∷ t) (take-add m n xs))

  take-all : (n : ℕ) (xs : List A) → length xs ≤ n → take n xs ≡ xs
  take-all zero [] h = refl
  take-all (suc n) [] h = refl
  take-all zero (x ∷ xs) h = absurd (omega arith)
  take-all (suc n) (x ∷ xs) h = ap (λ t. x ∷ t) (take-all n xs (omega arith))

  -- The page that a client asks for by its number and limit.
  unfoldable pub page_of : ℕ → ℕ → ℕ → List A → List A
  unfolding find_many resolve_pagination_params
  page_of max_limit limit number rows =
      find_many
        (resolve_pagination_params (record { page = some number; limit = some limit }) max_limit)
        rows

  -- The first pages, one after the other.
  unfoldable pub first_pages : ℕ → ℕ → ℕ → List A → List A
  first_pages max_limit limit zero rows = []
  first_pages max_limit limit (suc n) rows =
      first_pages max_limit limit n rows ++ page_of max_limit limit (suc n) rows

ceil-le : (t l : ℕ) → 0 < l → t ≤ ceil_div t l * l
ceil-le t l h = grind (arith, mod-lt (t + l - 1) h, div-add-mod (t + l - 1) l)

-- The limit that a request gets.
abbrev pub granted : ℕ → ℕ → ℕ
unfolding resolve_pagination_params
granted max_limit limit =
    (resolve_pagination_params (record { page = none; limit = some limit }) max_limit).limit

granted_bounds :
    (max_limit limit : ℕ)
    → 0 < max_limit
    → (0 < granted max_limit limit) × (granted max_limit limit ≤ max_limit)
unfolding granted resolve_pagination_params
granted_bounds max_limit limit h = ground arith

module _ {A : Type 0} (max_limit limit : ℕ) where
  first_pages-take :
      (n : ℕ) (rows : List A)
      → first_pages max_limit limit n rows ≡ take (n * granted max_limit limit) rows
  unfolding first_pages find_many resolve_pagination_params granted page_of
  first_pages-take zero rows = let e : 0 * granted max_limit limit ≡ 0 = omega arith in rw e refl
  first_pages-take (suc n) rows =
      let l = granted max_limit limit in
      let e : suc n * l ≡ n * l + l = grind arith in
      let k : suc n - 1 ≡ n = omega arith in
      rw (first_pages-take n rows, k, e) (sym (take-add (n * l) l rows))

  length-take : (n : ℕ) (xs : List A) → length (take n xs) ≤ n
  length-take zero xs = omega arith
  length-take (suc n) [] = omega arith
  length-take (suc n) (x ∷ xs) = omega (arith, length-take n xs)

  page_of-length :
      (number : ℕ) (rows : List A)
      → length (page_of max_limit limit number rows) ≤ granted max_limit limit
  unfolding find_many resolve_pagination_params granted page_of
  page_of-length number rows =
      length-take (granted max_limit limit) (drop ((number - 1) * granted max_limit limit) rows)

  -- Whatever limit a client asks for, the pages up to the total that the answer names, one after the
  -- other, are the whole list, and no page is longer than the greatest limit, if that is positive.
  pub pages_whole :
      (rows : List A)
      → 0 < max_limit
      → (first_pages max_limit limit
            (pagination_metadata 1 (granted max_limit limit) (length rows)).total_pages
            rows
          ≡ rows)
        × ((number : ℕ) → length (page_of max_limit limit number rows) ≤ max_limit)
  unfolding pagination_metadata
  pages_whole rows h =
      let bounds = granted_bounds max_limit limit h in
      (
        first_pages-take (ceil_div (length rows) (granted max_limit limit)) rows
            ∙ take-all _ rows (ceil-le (length rows) (granted max_limit limit) bounds.0),
        λ number. omega (arith, page_of-length number rows, bounds.1),
      )

-- ===== src/Pagination.antt =====
-- src/common/utils/pagination-params.util.ts and pagination.util.ts, and the slice that a query by
-- `skip` and `take` gives. The query DTO refuses a page or a limit below 1, so `page - 1` is exact.
pub mod Pages
mod Tests
use aerobi_api.Common.{
  Bool, List, Option, none, some, ℕ, ◌+◌, ◌-◌, ◌*◌, ◌/◌, leb, ltb, if◌then◌else◌, or_default, take,
  drop, length,
}

pub record PaginationQueryInput : Type 0 where
  pub page : Option ℕ
  pub limit : Option ℕ

pub record ResolvedPaginationParams : Type 0 where
  pub page : ℕ
  pub limit : ℕ
  pub skip : ℕ

abbrev pub pagination_default_page : ℕ
pagination_default_page = 1

abbrev pub pagination_default_limit : ℕ
pagination_default_limit = 10

abbrev pub pagination_min_limit : ℕ
pagination_min_limit = 1

abbrev pub min : ℕ → ℕ → ℕ
min a b = if leb a b then a else b

abbrev pub max : ℕ → ℕ → ℕ
max a b = if leb a b then b else a

-- Without options: the defaults of the module.
unfoldable pub resolve_pagination_params : PaginationQueryInput → ℕ → ResolvedPaginationParams
resolve_pagination_params input max_limit =
    let page = or_default input.page pagination_default_page in
    let limit =
      min (max (or_default input.limit pagination_default_limit) pagination_min_limit) max_limit in
    record { page = page; limit = limit; skip = (page - 1) * limit }

pub record PaginationMetadata : Type 0 where
  pub current_page : ℕ
  pub items_per_page : ℕ
  pub total_items : ℕ
  pub total_pages : ℕ
  pub has_next_page : Bool
  pub has_previous_page : Bool

-- `Math.ceil(a / b)`.
abbrev pub ceil_div : ℕ → ℕ → ℕ
ceil_div a b = (a + b - 1) / b

unfoldable pub pagination_metadata : ℕ → ℕ → ℕ → PaginationMetadata
pagination_metadata current_page items_per_page total_items = record {
  current_page = current_page;
  items_per_page = items_per_page;
  total_items = total_items;
  total_pages = ceil_div total_items items_per_page;
  has_next_page = ltb current_page (ceil_div total_items items_per_page);
  has_previous_page = ltb 1 current_page;
}

-- A query by `skip` and `take`.
unfoldable pub find_many {ℓ} : {A : Type ℓ} → ResolvedPaginationParams → List A → List A
find_many p rows = take p.limit (drop p.skip rows)

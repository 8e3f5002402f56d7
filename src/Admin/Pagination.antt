-- ===== src/Admin/Pagination.antt =====
-- src/admin/pagination.rs: pages of a list.
-- A `usize` has 64 bits and wraps, as in a release build. The parsed query string comes from the
-- crate `url`; it is the argument `pairs`. `default_limit` reads
-- `EnvConfig::default_pagination_limit()`, which the repository does not define: it is a parameter.
pub mod Bounds
pub mod Pages
use ferrumgw.Common.{
  ℕ, zero, suc, ◌+◌, ◌-◌, ◌*◌, ◌/◌, ◌%◌, ◌^◌, min, String, Bool, List, [], ◌∷◌, Option, none, some,
  ltb, nat_beq, ◌==◌, string_eq, length, take, drop, if◌then◌else◌,
}

abbrev pub usize_mod : ℕ
usize_mod = 2 ^ 64

pub record PaginationQuery : Type 0 where
  pub page : ℕ
  pub limit : ℕ

pub record PaginationMeta : Type 0 where
  pub page : ℕ
  pub limit : ℕ
  pub total : ℕ
  pub pages : ℕ

pub record PaginatedResponse {ℓ} (T : Type ℓ) : Type ℓ where
  pub items : List T
  pub pagination : PaginationMeta

abbrev pub default_page : ℕ
default_page = 1

abbrev pub max_limit : ℕ
max_limit = 1000

abbrev with_page : Option ℕ → PaginationQuery → PaginationQuery
with_page none q = q
with_page (some p) q = if ltb 0 p then record q { page = p } else q

abbrev with_limit : Option ℕ → PaginationQuery → PaginationQuery
with_limit none q = q
with_limit (some l) q = if ltb 0 l then record q { limit = min l max_limit } else q

-- `parse` is `str::parse::<usize>`: `none` where the text is no number below 2^64.
module _ (parse : String → Option ℕ) where
  -- The body of the loop over the pairs of the query string.
  unfoldable pub read_pair : String → String → PaginationQuery → PaginationQuery
  read_pair k v q =
      if k == "page"
      then with_page (parse v) q
      else if k == "limit"
      then with_limit (parse v) q
      else q

  unfoldable pub read_pairs : List (String × String) → PaginationQuery → PaginationQuery
  read_pairs [] q = q
  read_pairs ((k, v) ∷ pairs) q = read_pairs pairs (read_pair k v q)

  -- `PaginationQuery::from_request`
  unfoldable pub from_request : ℕ → List (String × String) → PaginationQuery
  from_request default_limit pairs =
      read_pairs pairs (record { page = default_page; limit = default_limit })

-- `(self.page - 1) * self.limit`; the subtraction wraps at page 0.
unfoldable pub offset : PaginationQuery → ℕ
offset q = ((q.page + usize_mod - 1) % usize_mod * q.limit) % usize_mod

-- `(total + limit - 1) / limit`; the sum wraps.
unfoldable pub create_meta : PaginationQuery → ℕ → PaginationMeta
create_meta q total = record {
  page = q.page;
  limit = q.limit;
  total = total;
  pages =
      if nat_beq total 0
      then 1
      else (((total + q.limit) % usize_mod + usize_mod - 1) % usize_mod) / q.limit;
}

unfoldable pub paginate {ℓ} : {T : Type ℓ} → PaginationQuery → List T → List T × PaginationMeta
paginate q items = (take q.limit (drop (offset q) items), create_meta q (length items))

-- `create_paginated_response`
unfoldable pub create_paginated_response {ℓ} :
    {T : Type ℓ} → List T → PaginationMeta → PaginatedResponse T
create_paginated_response items meta = record { items = items; pagination = meta }

-- ===== src/Admin/Pagination/Bounds.antt =====
-- The ranges of the numbers that a request can choose, and of the number of pages.
use ferrumgw.Common.{
  ℕ, zero, suc, ◌+◌, ◌-◌, ◌*◌, ◌/◌, ◌%◌, ◌≤◌, ◌<◌, max, String, ◌≡◌, false, List, [], ◌∷◌, Option,
  arith, nat_beq,
}
use ferrumgw.Admin.Pagination.{
  PaginationQuery, usize_mod, max_limit, read_pair, read_pairs, from_request, create_meta,
}

-- What every query that is read from a request satisfies.
pub record IsSane (q : PaginationQuery) : Type 0 where
  pub page : 1 ≤ q.page
  pub limit : 1 ≤ q.limit
  pub limit_bound : q.limit ≤ max_limit

module _ (parse : String → Option ℕ) where
  read_pair-IsSane :
      (k v : String) (q : PaginationQuery) → IsSane q → IsSane (read_pair parse k v q)
  unfolding read_pair
  read_pair-IsSane k v q h = ground arith

  read_pairs-IsSane :
      (pairs : List (String × String)) (q : PaginationQuery)
      → IsSane q
      → IsSane (read_pairs parse pairs q)
  unfolding read_pairs
  read_pairs-IsSane [] q h = h
  read_pairs-IsSane ((k, v) ∷ pairs) q h =
      read_pairs-IsSane pairs (read_pair parse k v q) (read_pair-IsSane k v q h)

  -- Whatever the query string holds, the page is at least 1 and the limit lies between 1 and 1000,
  -- if the default limit does.
  pub from_request-IsSane :
      (default_limit : ℕ) (pairs : List (String × String))
      → 1 ≤ default_limit
      → default_limit ≤ max_limit
      → IsSane (from_request parse default_limit pairs)
  unfolding from_request
  from_request-IsSane default_limit pairs low high =
      read_pairs-IsSane pairs _ (record { page = omega arith; limit = low; limit_bound = high })

ceiling :
    (total limit : ℕ)
    → 1 ≤ limit
    → 1 ≤ total
    → (1 ≤ (total + limit - 1) / limit)
      × (total ≤ (total + limit - 1) / limit * limit)
      × (((total + limit - 1) / limit - 1) * limit < total)
ceiling total limit low pos = (grind arith, grind arith, grind arith)

suc-ne-zero : (n : ℕ) → nat_beq (suc n) 0 ≡ false
suc-ne-zero n = ground arith

sum_wraps_not :
    (total limit : ℕ)
    → 1 ≤ limit
    → total + limit < usize_mod
    → ((total + limit) % usize_mod + usize_mod - 1) % usize_mod ≡ total + limit - 1
sum_wraps_not total limit low fits = omega arith

-- The number of pages is the least that holds all the items: there is at least one page, all the
-- items fit on the pages, and they do not fit on one page less, unless there are no items. This
-- holds for a query with a limit between 1 and 1000 and a page of at least 1, if the sum of the
-- limit and the number of items does not reach 2^64.
pub create_meta_pages :
    (q : PaginationQuery) (total : ℕ)
    → IsSane q
    → total + q.limit < usize_mod
    → (1 ≤ (create_meta q total).pages)
      × (total ≤ (create_meta q total).pages * q.limit)
      × (((create_meta q total).pages - 1) * q.limit < max 1 total)
unfolding create_meta
create_meta_pages q zero h fits = omega arith
create_meta_pages q (suc n) h fits =
    rw (suc-ne-zero n, sum_wraps_not (suc n) q.limit h.limit fits)
      (let c = ceiling (suc n) q.limit h.limit (omega arith) in (c.0, c.1, omega (arith, c.2)))

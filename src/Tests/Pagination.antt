-- ===== src/Tests/Pagination.antt =====
-- The theorems about the pagination, at concrete values.
use ferrumgw.Common.{
  ℕ, ◌≡◌, String, List, [], ◌∷◌, Option, some, none, arith, ◌==◌, string_eq, if◌then◌else◌,
}
use ferrumgw.Admin.Pagination.{PaginationQuery, paginate}
use ferrumgw.Admin.Pagination.Bounds.{IsSane}
use ferrumgw.Admin.Pagination.Pages.{first_pages, first_pages-eq-items}

-- A parser of two numbers.
abbrev parse : String → Option ℕ
parse text = if text == "5000" then some 5000 else if text == "0" then some 0 else none

abbrev by_two : PaginationQuery
by_two = record { page = 2; limit = 2 }

by_two-IsSane : IsSane by_two
by_two-IsSane = record { page = omega arith; limit = omega arith; limit_bound = omega arith }

abbrev five : List ℕ
five = 1 ∷ 2 ∷ 3 ∷ 4 ∷ 5 ∷ []

first_pages-eq-items_example : first_pages (paginate by_two five).1.pages 2 five ≡ five
first_pages-eq-items_example = first_pages-eq-items by_two five by_two-IsSane (omega arith)

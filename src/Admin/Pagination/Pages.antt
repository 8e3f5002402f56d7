-- ===== src/Admin/Pagination/Pages.antt =====
-- The pages of a list, one after the other.
use ferrumgw.Common.{
  ℕ, zero, suc, ◌+◌, ◌-◌, ◌*◌, ◌%◌, ◌^◌, ◌≤◌, ◌<◌, ◌≡◌, refl, ap, ◌∙◌, List, [], ◌∷◌, ◌++◌, arith,
  length, length-take, length-drop, take, drop, min,
}
use native.Mathlib.Nat.{zero-add, suc-add, zero-mul}
use ferrumgw.Admin.Pagination.{PaginationQuery, usize_mod, offset, create_meta, paginate}
use ferrumgw.Admin.Pagination.Bounds.{IsSane, create_meta_pages}

offset_page :
    (n limit : ℕ)
    → n < usize_mod
    → n * limit < usize_mod
    → offset (record { page = suc n; limit = limit }) ≡ n * limit
unfolding offset
offset_page n limit small fits =
    let step : (suc n + usize_mod - 1) % usize_mod ≡ n = omega arith in rw step (omega arith)

wrapped : (m : ℕ) → ((2 ^ 61 + 1 + usize_mod - 1) % usize_mod * (m * 8)) % usize_mod ≡ 0
wrapped m = omega arith

first_offset : (m : ℕ) → ((1 + usize_mod - 1) % usize_mod * (m * 8)) % usize_mod ≡ 0
first_offset m = omega arith

last_page : (pages limit : ℕ) → 1 ≤ pages → pages * limit ≡ (pages - 1) * limit + limit
last_page zero limit h = elim h [ ]
last_page (suc p) limit h = let e : suc p - 1 ≡ p = omega arith in rw e (omega arith)

offset_of :
    (q : PaginationQuery)
    → IsSane q
    → q.page * q.limit < usize_mod
    → offset q ≡ (q.page - 1) * q.limit
unfolding offset
offset_of q h fits =
    let small : q.page - 1 < usize_mod = grind (arith, h.limit) in
    let before : (q.page - 1) * q.limit < usize_mod =
      omega (arith, last_page q.page q.limit h.page) in
    let step : (q.page + usize_mod - 1) % usize_mod ≡ q.page - 1 = omega (arith, h.page) in
    rw step (omega arith)

module _ {ℓ} {T : Type ℓ} where
  take-nil : (n : ℕ) → take {A = T} n [] ≡ []
  take-nil zero = refl
  take-nil (suc n) = refl

  take-append-take-drop :
      (a b : ℕ) (xs : List T) → take a xs ++ take b (drop a xs) ≡ take (a + b) xs
  take-append-take-drop zero b xs = rw zero-add
  take-append-take-drop (suc a) b [] = rw (take-nil b, take-nil (suc a + b))
  take-append-take-drop (suc a) b (x ∷ xs) =
      rw suc-add (ap (λ ys. x ∷ ys) (take-append-take-drop a b xs))

  take_all : (n : ℕ) (xs : List T) → length xs ≤ n → take n xs ≡ xs
  take_all zero [] h = refl
  take_all (suc n) [] h = refl
  take_all zero (x ∷ xs) h = elim h [ ]
  take_all (suc n) (x ∷ xs) h = ap (λ ys. x ∷ ys) (take_all n xs (omega arith))

  -- The pages 1 to `n`, joined.
  pub first_pages : ℕ → ℕ → List T → List T
  first_pages zero limit items = []
  first_pages (suc n) limit items =
      first_pages n limit items ++ (paginate (record { page = suc n; limit = limit }) items).0

  first_pages_lem :
      (n limit : ℕ) (items : List T)
      → 1 ≤ limit
      → n * limit < usize_mod
      → first_pages n limit items ≡ take (n * limit) items
  unfolding first_pages paginate
  first_pages_lem zero limit items low fits = rw zero-mul
  first_pages_lem (suc n) limit items low fits =
      let before : n * limit < usize_mod = grind arith in
      let small : n < usize_mod = grind arith in
      rw (first_pages_lem n limit items low before, offset_page n limit small before)
        (take-append-take-drop (n * limit) limit items ∙ ap (λ (m : ℕ). take m items) (grind arith))

  -- The pages 1 to `pages`, joined in order, are the whole list: no item is lost, repeated or out of
  -- order. This holds for a query with a limit between 1 and 1000, if the sum of the limit and the
  -- number of items does not reach 2^64.
  pub first_pages-eq-items :
      (q : PaginationQuery) (items : List T)
      → IsSane q
      → length items + q.limit < usize_mod
      → first_pages (paginate q items).1.pages q.limit items ≡ items
  unfolding paginate
  first_pages-eq-items q items h fits =
      let meta = create_meta_pages q (length items) h fits in
      first_pages_lem (create_meta q (length items)).pages q.limit items h.limit
        (omega (arith, last_page (create_meta q (length items)).pages q.limit meta.0))
      ∙ take_all _ items meta.1

  -- If the product of page and limit stays below 2^64, a page holds `limit` items, or as many as are
  -- left behind the earlier pages, and none if there are none left.
  pub length-paginate :
      (q : PaginationQuery) (items : List T)
      → IsSane q
      → q.page * q.limit < usize_mod
      → length (paginate q items).0 ≡ min q.limit (length items - (q.page - 1) * q.limit)
  unfolding paginate
  length-paginate q items h fits =
      let skipped : offset q ≡ (q.page - 1) * q.limit = offset_of q h fits in
      length-take q.limit (drop (offset q) items) ∙ rw (length-drop (offset q) items, skipped)

  -- The multiplication of `offset` is not checked: the page 2^61 + 1 of any limit that is a multiple
  -- of 8 shows the items of the first page.
  pub offset_wraps :
      (m : ℕ) (items : List T)
      → (paginate (record { page = 2 ^ 61 + 1; limit = m * 8 }) items).0
        ≡ (paginate (record { page = 1; limit = m * 8 }) items).0
  unfolding paginate offset
  offset_wraps m items = rw (wrapped m, first_offset m)

-- ===== src/Database/Postgres/Ordered.antt =====
-- src/database/postgres.rs: rows with different keys, in the order of a time.
use ferrumgw.Common.{
  ℕ, String, ◌≡◌, refl, ◌∙◌, false, ◌||◌, List, [], ◌∷◌, map, arith, ◌==◌, string_eq, PartialEq,
  ==_iff, ltb, Bool-cases, inl, inr,
}
use ferrumgw.Common.Distinct.{IsDistinct, has_key}
use ferrumgw.Config.Delta.Lookup.{find_id}
use ferrumgw.Database.Postgres.Loading.{insert_ordered, order_by}

module _ {A K : Type 0} ⦃e : PartialEq K⦄ (key : A → K) (time_of : A → ℕ) where
  has_key-insert_ordered :
      (k : K) (a : A) (xs : List A)
      → has_key key k (insert_ordered time_of a xs) ≡ (key a == k || has_key key k xs)
  has_key-insert_ordered k a [] = refl
  has_key-insert_ordered k a (x ∷ xs) = ground (arith, has_key-insert_ordered k a xs)

  has_key-order_by : (k : K) (xs : List A) → has_key key k (order_by time_of xs) ≡ has_key key k xs
  has_key-order_by k [] = refl
  has_key-order_by k (x ∷ xs) =
      ground (arith, has_key-insert_ordered k x (order_by time_of xs), has_key-order_by k xs)

  insert_ordered-IsDistinct :
      (a : A) (xs : List A)
      → has_key key (key a) xs ≡ false
      → IsDistinct key xs
      → IsDistinct key (insert_ordered time_of a xs)
  insert_ordered-IsDistinct a [] new d = (refl, tt)
  insert_ordered-IsDistinct a (x ∷ xs) new d = elim (Bool-cases (ltb (time_of x) (time_of a))) [
    | inl later ↦ rw later (
      ground (
        arith,
        has_key-insert_ordered (key x) a xs,
        ==_iff (key x) (key a),
        ==_iff (key a) (key x),
      ),
      insert_ordered-IsDistinct a xs (ground arith) d.1,
    )
    | inr not_later ↦ rw not_later (new, d)
  ]

  pub order_by-IsDistinct : (xs : List A) → IsDistinct key xs → IsDistinct key (order_by time_of xs)
  order_by-IsDistinct [] d = tt
  order_by-IsDistinct (x ∷ xs) d =
      insert_ordered-IsDistinct x (order_by time_of xs) (has_key-order_by (key x) xs ∙ d.0)
        (order_by-IsDistinct xs d.1)

-- What is found by its id is the same in any order.
module _ {A B : Type 0} (id_of : A → String) (key : B → String) (f : A → B)
    (same : (a : A) → key (f a) ≡ id_of a) (time_of : A → ℕ) where
  find-insert_ordered :
      (k : String) (a : A) (xs : List A)
      → has_key id_of (id_of a) xs ≡ false
      → find_id key k (map f (insert_ordered time_of a xs)) ≡ find_id key k (map f (a ∷ xs))
  find-insert_ordered k a [] new = refl
  find-insert_ordered k a (x ∷ xs) new = ground (
    arith,
    find-insert_ordered k a xs,
    same a,
    same x,
    ==_iff (id_of a) k,
    ==_iff (id_of x) k,
    ==_iff (id_of x) (id_of a),
  )

  pub find-order_by :
      (k : String) (xs : List A)
      → IsDistinct id_of xs
      → find_id key k (map f (order_by time_of xs)) ≡ find_id key k (map f xs)
  find-order_by k [] d = refl
  find-order_by k (x ∷ xs) d =
      find-insert_ordered k x (order_by time_of xs)
        (has_key-order_by id_of time_of (id_of x) xs ∙ d.0)
      ∙ ground (arith, find-order_by k xs d.1)

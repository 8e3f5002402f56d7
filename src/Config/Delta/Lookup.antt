-- ===== src/Config/Delta/Lookup.antt =====
-- What a lookup by id finds after the loops of `apply_to`.
use ferrumgw.Common.{
  String, ◌≡◌, refl, Bool, false, ◌||◌, List, [], ◌∷◌, Option, none, some, arith, ◌==◌, string_eq,
  inl, inr, ==_iff, Bool-cases, contains, find, retain, any, if◌then◌else◌,
}
use ferrumgw.Config.Delta.{upsert, upsert_all, remove_ids}

abbrev pub or_else {ℓ} : {A : Type ℓ} → Option A → Option A → Option A
or_else none o = o
or_else (some a) o = some a

module _ {ℓ} {A : Type ℓ} (id_of : A → String) where
  -- The first entity with the id `k`.
  abbrev pub find_id : String → List A → Option A
  find_id k = find (λ x. id_of x == k)

  -- The last update of the entity `k`.
  abbrev pub last_update : String → List A → Option A
  last_update k [] = none
  last_update k (a ∷ updated) =
      or_else (last_update k updated) (if id_of a == k then some a else none)

  -- No two entities have the same id.
  abbrev pub IsKeyed : List A → Type 0
  IsKeyed [] = Unit
  IsKeyed (x ∷ xs) = (any (λ y. id_of y == id_of x) xs ≡ false) × IsKeyed xs

  find-upsert :
      (k : String) (a : A) (xs : List A)
      → find_id k (upsert id_of a xs) ≡ (if id_of a == k then some a else find_id k xs)
  unfolding upsert
  find-upsert k a [] = refl
  find-upsert k a (x ∷ xs) = ground (
    arith,
    ==_iff (id_of x) (id_of a),
    ==_iff (id_of x) k,
    ==_iff (id_of a) k,
    find-upsert k a xs,
  )

  pub find-upsert_all :
      (k : String) (updated xs : List A)
      → find_id k (upsert_all id_of updated xs) ≡ or_else (last_update k updated) (find_id k xs)
  unfolding upsert_all
  find-upsert_all k [] xs = refl
  find-upsert_all k (a ∷ updated) xs =
      ground (arith, find-upsert_all k updated (upsert id_of a xs), find-upsert k a xs)

  pub find-remove_ids :
      (k : String) (deleted : List String) (xs : List A)
      → find_id k (remove_ids id_of deleted xs)
        ≡ (if contains deleted k then none else find_id k xs)
  unfolding remove_ids
  find-remove_ids k deleted [] = ground arith
  find-remove_ids k deleted (x ∷ xs) =
      ground (arith, ==_iff (id_of x) k, find-remove_ids k deleted xs)

  any-upsert :
      (k : String) (a : A) (xs : List A)
      → any (λ y. id_of y == k) (upsert id_of a xs) ≡ (id_of a == k || any (λ y. id_of y == k) xs)
  unfolding upsert
  any-upsert k a [] = refl
  any-upsert k a (x ∷ xs) =
      ground (
        arith,
        ==_iff (id_of x) (id_of a),
        ==_iff (id_of x) k,
        ==_iff (id_of a) k,
        any-upsert k a xs,
      )

  upsert-IsKeyed : (a : A) (xs : List A) → IsKeyed xs → IsKeyed (upsert id_of a xs)
  unfolding upsert
  upsert-IsKeyed a [] h = (refl, tt)
  upsert-IsKeyed a (x ∷ xs) (fresh, h) = elim (Bool-cases (id_of x == id_of a)) [
    | inl same ↦ rw same (rw (← (==_iff (id_of x) (id_of a)).0 same) (fresh, h))
    | inr other ↦ rw other (
      ground (
        arith,
        any-upsert (id_of x) a xs,
        ==_iff (id_of a) (id_of x),
        ==_iff (id_of x) (id_of a),
      ),
      upsert-IsKeyed a xs h,
    )
  ]

  pub upsert_all-IsKeyed :
      (updated xs : List A) → IsKeyed xs → IsKeyed (upsert_all id_of updated xs)
  unfolding upsert_all
  upsert_all-IsKeyed [] xs h = h
  upsert_all-IsKeyed (a ∷ updated) xs h = upsert_all-IsKeyed updated _ (upsert-IsKeyed a xs h)

  any-retain : (p q : A → Bool) (xs : List A) → any q xs ≡ false → any q (retain p xs) ≡ false
  any-retain p q [] h = refl
  any-retain p q (x ∷ xs) h = ground (arith, any-retain p q xs)

  pub remove_ids-IsKeyed :
      (deleted : List String) (xs : List A) → IsKeyed xs → IsKeyed (remove_ids id_of deleted xs)
  unfolding remove_ids
  remove_ids-IsKeyed deleted [] h = tt
  remove_ids-IsKeyed deleted (x ∷ xs) (fresh, h) = elim (Bool-cases (contains deleted (id_of x))) [
    | inl gone ↦ rw gone (remove_ids-IsKeyed deleted xs h)
    | inr kept ↦
        rw kept (any-retain _ (λ y. id_of y == id_of x) xs fresh, remove_ids-IsKeyed deleted xs h)
  ]

-- ===== src/Common/Distinct.antt =====
-- Lists whose entries have different keys, under the changes that a table sees.
use mathlib.Core.Path.{◌≡◌, refl}
use mathlib.Core.Logic.{inl, inr}
use mathlib.Core.Bool.{Bool, true, false, not, ◌&&◌, ◌||◌}
use mathlib.Core.List.{List, [], ◌∷◌, ◌++◌, map}
use native.Mathlib.Omega.{arith}
use ferrumgw.Common.Tests.{Bool-cases}
use ferrumgw.Common.Equality.{PartialEq, ◌==◌, ==_iff}
use ferrumgw.Common.Lists.{any, retain}

module _ {A K : Type 0} ⦃e : PartialEq K⦄ (key : A → K) where
  -- Some entry has the key.
  abbrev pub has_key : K → List A → Bool
  has_key k = any (λ x. key x == k)

  abbrev pub IsDistinct : List A → Type 0
  IsDistinct [] = Unit
  IsDistinct (x ∷ xs) = (has_key (key x) xs ≡ false) × IsDistinct xs

  has_key-append :
      (k : K) (xs : List A) (a : A) → has_key k (xs ++ (a ∷ [])) ≡ (has_key k xs || key a == k)
  has_key-append k [] a = ground arith
  has_key-append k (x ∷ xs) a = ground (arith, has_key-append k xs a)

  pub append-IsDistinct :
      (xs : List A) (a : A)
      → has_key (key a) xs ≡ false
      → IsDistinct xs
      → IsDistinct (xs ++ (a ∷ []))
  append-IsDistinct [] a h d = (refl, tt)
  append-IsDistinct (x ∷ xs) a h d = (
    ground (arith, has_key-append (key x) xs a, ==_iff (key x) (key a), ==_iff (key a) (key x)),
    append-IsDistinct xs a (ground arith) d.1,
  )

  has_key-retain :
      (k : K) (p : A → Bool) (xs : List A) → has_key k xs ≡ false → has_key k (retain p xs) ≡ false
  has_key-retain k p [] h = refl
  has_key-retain k p (x ∷ xs) h = ground (arith, has_key-retain k p xs)

  pub retain-IsDistinct : (p : A → Bool) (xs : List A) → IsDistinct xs → IsDistinct (retain p xs)
  retain-IsDistinct p [] d = tt
  retain-IsDistinct p (x ∷ xs) d = elim (Bool-cases (p x)) [
    | inl kept ↦ rw kept (has_key-retain (key x) p xs d.0, retain-IsDistinct p xs d.1)
    | inr dropped ↦ rw dropped (retain-IsDistinct p xs d.1)
  ]

  has_key-map :
      (k : K) (f : A → A)
      → ((x : A) → key (f x) ≡ key x)
      → (xs : List A) → has_key k (map f xs) ≡ has_key k xs
  has_key-map k f same [] = refl
  has_key-map k f same (x ∷ xs) = rw (same x, has_key-map k f same xs) refl

  -- A change that keeps the keys.
  pub map-IsDistinct :
      (f : A → A)
      → ((x : A) → key (f x) ≡ key x)
      → (xs : List A) → IsDistinct xs
      → IsDistinct (map f xs)
  map-IsDistinct f same [] d = tt
  map-IsDistinct f same (x ∷ xs) d =
      (rw (same x, has_key-map (key x) f same xs) d.0, map-IsDistinct f same xs d.1)

-- The entry with the identifier `i` is overwritten, and gets the key `v`.
module _ {A K I : Type 0} ⦃e : PartialEq K⦄ ⦃e' : PartialEq I⦄ (key : A → K) (id_of : A → I) (i : I)
    (v : K) (f : A → A) (changed : (x : A) → (id_of x == i) ≡ true → key (f x) ≡ v)
    (kept : (x : A) → (id_of x == i) ≡ false → key (f x) ≡ key x) where
  -- Another entry has the key.
  abbrev pub taken : List A → Bool
  taken = any (λ x. (key x == v) && not (id_of x == i))

  has_key-other :
      (k : K) (xs : List A)
      → (k == v) ≡ false
      → has_key key k xs ≡ false
      → has_key key k (map f xs) ≡ false
  has_key-other k [] ne h = refl
  has_key-other k (x ∷ xs) ne h = elim (Bool-cases (id_of x == i)) [
    | inl same ↦ rw (changed x same) (ground (arith, ==_iff v k, ==_iff k v, has_key-other k xs))
    | inr other ↦ rw (kept x other) (ground (arith, has_key-other k xs))
  ]

  -- Without the identifier, the key is free after the change as it was before.
  has_key-free :
      (xs : List A)
      → any (λ x. id_of x == i) xs ≡ false
      → taken xs ≡ false
      → has_key key v (map f xs) ≡ false
  has_key-free [] absent free = refl
  has_key-free (x ∷ xs) absent free = rw (kept x (ground arith)) (ground (arith, has_key-free xs))

  pub overwrite-IsDistinct :
      (xs : List A)
      → IsDistinct id_of xs
      → taken xs ≡ false
      → IsDistinct key xs
      → IsDistinct key (map f xs)
  overwrite-IsDistinct [] ids free d = tt
  overwrite-IsDistinct (x ∷ xs) ids free d = elim (Bool-cases (id_of x == i)) [
    | inl same ↦ (
      rw (changed x same)
          (has_key-free xs (rw ((==_iff (id_of x) i).0 same) at ids.0) (ground arith)),
      overwrite-IsDistinct xs ids.1 (ground arith) d.1,
    )
    | inr other ↦ (
      rw (kept x other) (has_key-other (key x) xs (ground arith) d.0),
      overwrite-IsDistinct xs ids.1 (ground arith) d.1,
    )
  ]

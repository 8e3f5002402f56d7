-- ===== src/Common/HashMap.antt =====
-- A `HashMap` of the standard library whose size is asked: its entries, the newest first.
use Prim.Native.String.{String}
use mathlib.Core.Path.{◌≡◌, refl}
use mathlib.Core.Logic.{inl, inr}
use mathlib.Core.Bool.{not}
use mathlib.Core.Option.{Option, none, some}
use mathlib.Core.List.{List, [], ◌∷◌}
use native.Mathlib.Omega.{arith}
use ferrumgw.Common.Tests.{if◌then◌else◌, Bool-cases}
use ferrumgw.Common.Equality.{◌==◌, ==_iff, ==_refl, string_eq}
use ferrumgw.Common.Lists.{retain, All}

abbrev pub HashMap : Type 0 → Type 0
HashMap V = List (String × V)

module _ {V : Type 0} where
  -- `get`
  abbrev pub get_key : HashMap V → String → Option V
  get_key [] k = none
  get_key ((j, v) ∷ m) k = if j == k then some v else get_key m k

  -- `insert`
  abbrev pub insert_key : String → V → HashMap V → HashMap V
  insert_key k v m = (k, v) ∷ retain (λ e. not (e.0 == k)) m

  pub get-insert_same : (k : String) (v : V) (m : HashMap V) → get_key (insert_key k v m) k ≡ some v
  get-insert_same k v m = rw (==_refl k) refl

  pub All-get :
      (P : String → V → Type 0) (m : HashMap V)
      → All (λ e. P e.0 e.1) m
      → (k : String) (v : V) → get_key m k ≡ some v
      → P k v
  All-get P [] h k v eq = absurd (ground arith)
  All-get P ((j, w) ∷ m) h k v eq = elim (Bool-cases (j == k)) [
    | inl same ↦ let value : w ≡ v = ground arith in rw (← (==_iff j k).0 same, ← value) h.0
    | inr other ↦ All-get P m h.1 k v (ground arith)
  ]

-- ===== src/Common/DashMap.antt =====
-- The concurrent map of the crate `dashmap`, which is not part of the repository: what the program
-- relies on, for keys of type `String`. A call is one atomic step. A `HashMap` of the standard library
-- obeys the same laws.
use Prim.Native.String.{String}
use mathlib.Core.Path.{◌≡◌, refl}
use mathlib.Core.Option.{Option, none, some}
use mathlib.Core.List.{List, [], ◌∷◌}
use ferrumgw.Common.Tests.{if◌then◌else◌}
use ferrumgw.Common.Equality.{◌==◌, string_eq}

pub record DashMap (V : Type 0) : Type 1 where
  pub Map : Type 0
  pub empty : Map
  pub get : Map → String → Option V
  pub insert : Map → String → V → Map
  pub remove : Map → String → Map
  pub get-empty : (k : String) → get empty k ≡ none
  pub get-insert :
      (m : Map) (k j : String) (v : V) → get (insert m k v) j ≡ (if k == j then some v else get m j)
  pub get-remove :
      (m : Map) (k j : String) → get (remove m k) j ≡ (if k == j then none else get m j)

-- An implementation, which shows that the laws can be met: the newest entry of a list of writes.
abbrev newest : {V : Type 0} → List (String × Option V) → String → Option V
newest [] k = none
newest ((j, v) ∷ m) k = if j == k then v else newest m k

abbrev pub write_log : (V : Type 0) → DashMap V
write_log V = record {
  Map = List (String × Option V);
  empty = [];
  get = newest;
  insert = λ m k v. (k, some v) ∷ m;
  remove = λ m k. (k, none) ∷ m;
  get-empty = λ k. refl;
  get-insert = λ m k j v. refl;
  get-remove = λ m k j. refl;
}

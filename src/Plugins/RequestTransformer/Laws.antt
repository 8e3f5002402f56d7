-- ===== src/Plugins/RequestTransformer/Laws.antt =====
-- What the request transformer does with the parameters of a query.
use ferrumgw.Common.{
  ◌≡◌, refl, sym, ◌∙◌, ap, inl, inr, String, Bool, true, false, List, [], ◌∷◌, Option, none, some,
  ◌==◌, ==_iff, string_eq, any, if◌then◌else◌, arith, Bool-cases,
}
use ferrumgw.Common.Distinct.{IsDistinct, has_key}
use ferrumgw.Common.DashMap.{DashMap}
use ferrumgw.Plugins.RequestTransformer.{
  RequestTransformerConfig, split_ampersand, splitn_equals, insert_pair, insert_pairs, parse_query,
  has_param, remove_params, replace_params, add_params, transformed_params,
}

-- The value that a list of pairs gives a name.
abbrev pub value_for : List (String × String) → String → Option String
value_for [] j = none
value_for ((name, value) ∷ rest) j = if name == j then some value else value_for rest j

abbrev pub or_else : Option String → Option String → Option String
or_else (some v) o = some v
or_else none o = o

-- The last part of a query that gives the name a value with an equals sign.
abbrev pub value_of_pair : String × Option String → String → Option String
value_of_pair (name, some value) j = if name == j then some value else none
value_of_pair (name, none) j = none

abbrev pub last_value : List String → String → Option String
last_value [] j = none
last_value (pair ∷ pairs) j = or_else (last_value pairs j) (value_of_pair (splitn_equals pair) j)

abbrev pub query_value : Option String → String → Option String
query_value none j = none
query_value (some query) j =
    let (first, rest) = split_ampersand query in last_value (first ∷ rest) j

-- A value that is present is overwritten, a missing one is added.
abbrev pub replaced_or_added : Option String → Option String → Option String → Option String
replaced_or_added (some v) replacement addition = or_else replacement (some v)
replaced_or_added none replacement addition = addition

module _ (D : DashMap String) where
  open D use {Map}

  get-insert_pair :
      (m : Map) (p : String × Option String) (j : String)
      → D.get (insert_pair D m p) j ≡ or_else (value_of_pair p j) (D.get m j)
  get-insert_pair m (name, some value) j = elim (Bool-cases (name == j)) [
    | inl h ↦ rw (D.get-insert m name j value, h) refl
    | inr h ↦ rw (D.get-insert m name j value, h) refl
  ]
  get-insert_pair m (name, none) j = refl

  or_else_assoc : (a b c : Option String) → or_else a (or_else b c) ≡ or_else (or_else a b) c
  or_else_assoc none b c = refl
  or_else_assoc (some v) b c = refl

  get-insert_pairs :
      (m : Map) (pairs : List String) (j : String)
      → D.get (insert_pairs D m pairs) j ≡ or_else (last_value pairs j) (D.get m j)
  get-insert_pairs m [] j = refl
  get-insert_pairs m (pair ∷ pairs) j =
      rw
        (
          get-insert_pairs (insert_pair D m (splitn_equals pair)) pairs j,
          get-insert_pair m (splitn_equals pair) j,
        )
        (or_else_assoc (last_value pairs j) (value_of_pair (splitn_equals pair) j) (D.get m j))

  replaced_then_added :
      (o r a : Option String) → or_else (replaced_or_added o r none) a ≡ replaced_or_added o r a
  replaced_then_added none r a = refl
  replaced_then_added (some v) none a = refl
  replaced_then_added (some v) (some w) a = refl

  or_else-none : (a : Option String) → or_else a none ≡ a
  or_else-none none = refl
  or_else-none (some v) = refl

  get-parse_query :
      (query : Option String) (j : String) → D.get (parse_query D query) j ≡ query_value query j
  unfolding parse_query
  get-parse_query none j = D.get-empty j
  get-parse_query (some query) j =
      get-insert_pairs D.empty ((split_ampersand query).0 ∷ (split_ampersand query).1) j
      ∙ ap (or_else _) (D.get-empty j)
      ∙ or_else-none _

  if_same : (b : Bool) (o : Option String) → (if b then o else o) ≡ o
  if_same true o = refl
  if_same false o = refl

  get-remove_params :
      (m : Map) (names : List String) (j : String)
      → D.get (remove_params D m names) j
        ≡ (if any (λ name. name == j) names then none else D.get m j)
  get-remove_params m [] j = refl
  get-remove_params m (name ∷ names) j = elim (Bool-cases (name == j)) [
    | inl h ↦
        rw (get-remove_params (D.remove m name) names j, D.get-remove m name j, h)
          (if_same (any (λ n. n == j) names) none)
    | inr h ↦ rw (get-remove_params (D.remove m name) names j, D.get-remove m name j, h) refl
  ]

  get-if :
      (b : Bool) (x y : Map) (j : String)
      → D.get (if b then x else y) j ≡ (if b then D.get x j else D.get y j)
  get-if true x y j = refl
  get-if false x y j = refl

  get-eq : (m : Map) (k j : String) → (k == j) ≡ true → D.get m k ≡ D.get m j
  get-eq m k j h = ap (D.get m) ((==_iff k j).0 h)

  get-replace_one :
      (m : Map) (name value j : String)
      → D.get (if has_param D m name then D.insert m name value else m) j
        ≡ (if name == j then replaced_or_added (D.get m j) (some value) none else D.get m j)
  get-replace_one m name value j = ground (
    arith,
    get-if (has_param D m name) (D.insert m name value) m j,
    D.get-insert m name j value,
    get-eq m name j,
  )

  value_for_absent :
      (rs : List (String × String)) (j : String)
      → has_key (λ p. p.0) j rs ≡ false
      → value_for rs j ≡ none
  value_for_absent [] j h = refl
  value_for_absent ((name, value) ∷ rest) j h = ground (arith, value_for_absent rest j)

  get-replace_params :
      (rs : List (String × String)) (m : Map) (j : String)
      → IsDistinct (λ p. p.0) rs
      → D.get (replace_params D m rs) j ≡ replaced_or_added (D.get m j) (value_for rs j) none
  get-replace_params [] m j d = ground (arith)
  get-replace_params ((name, value) ∷ rest) m j d = elim (Bool-cases (name == j)) [
    | inl h ↦
        get-replace_params rest _ j d.1
        ∙ ground (
          arith,
          get-replace_one m name value j,
          value_for_absent rest j (rw ((==_iff name j).0 h) at d.0),
        )
    | inr h ↦ get-replace_params rest _ j d.1 ∙ ground (arith, get-replace_one m name value j)
  ]

  get-add_one :
      (m : Map) (name value j : String)
      → D.get (if has_param D m name then m else D.insert m name value) j
        ≡ (if name == j then or_else (D.get m j) (some value) else D.get m j)
  get-add_one m name value j = ground (
    arith,
    get-if (has_param D m name) m (D.insert m name value) j,
    D.get-insert m name j value,
    get-eq m name j,
  )

  get-add_params :
      (additions : List (String × String)) (m : Map) (j : String)
      → D.get (add_params D m additions) j ≡ or_else (D.get m j) (value_for additions j)
  get-add_params [] m j = sym (or_else-none (D.get m j))
  get-add_params ((name, value) ∷ rest) m j =
      get-add_params rest _ j ∙ ground (arith, get-add_one m name value j)

  -- With settings whose replaced names differ, each parameter is as described: its value is the last one
  -- that the query gives it with an equals sign, unless it is removed; a parameter with a value gets
  -- that of the replacement, one without a value that of the addition.
  pub transformed_params_lem :
      (config : RequestTransformerConfig) (query : Option String) (j : String)
      → IsDistinct (λ p. p.0) config.replace_query_params
      → D.get (transformed_params D config query) j
        ≡ replaced_or_added
            (if any (λ name. name == j) config.remove_query_params
              then none
              else query_value query j)
            (value_for config.replace_query_params j)
            (value_for config.add_query_params j)
  unfolding transformed_params
  transformed_params_lem config query j d =
      get-add_params config.add_query_params _ j
      ∙ ap (λ o. or_else o (value_for config.add_query_params j))
          (get-replace_params config.replace_query_params _ j d
            ∙ ap (λ o. replaced_or_added o (value_for config.replace_query_params j) none)
                (get-remove_params (parse_query D query) config.remove_query_params j
                  ∙ ap (λ o. if any (λ name. name == j) config.remove_query_params then none else o)
                      (get-parse_query query j)))
      ∙ replaced_then_added
          (if any (λ name. name == j) config.remove_query_params then none else query_value query j)
          (value_for config.replace_query_params j) (value_for config.add_query_params j)

-- ===== src/Tests/Transformers.antt =====
-- The theorems about the transformer plugins, at concrete values.
use ferrumgw.Common.{◌≡◌, refl, String, [], ◌∷◌, some}
use ferrumgw.Common.DashMap.{write_log}
use ferrumgw.Plugins.RequestTransformer.{RequestTransformerConfig, transformed_params}
use ferrumgw.Plugins.RequestTransformer.Laws.{transformed_params_lem}

abbrev changes : RequestTransformerConfig
changes = record {
  add_headers = [];
  remove_headers = [];
  replace_headers = [];
  add_query_params = ("debug", "on") ∷ [];
  remove_query_params = "token" ∷ [];
  replace_query_params = ("page", "1") ∷ ("size", "10") ∷ [];
}

transformed_params_lem_example :
    (write_log String).get
      (transformed_params (write_log String) changes (some "page=7&token=x&debug"))
      "page"
    ≡ some "1"
transformed_params_lem_example =
    transformed_params_lem (write_log String) changes (some "page=7&token=x&debug") "page"
      (refl, (refl, tt))

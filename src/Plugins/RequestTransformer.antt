-- ===== src/Plugins/RequestTransformer.antt =====
-- src/plugins/request_transformer/mod.rs: the changes of the headers and of the query of a request.
-- The map `query_parts` of the standard library obeys the laws of Common/DashMap; a `HashMap` of the
-- settings is a list of its entries in the order in which the loop meets them. A panic is `none`.
pub mod Laws
use ferrumgw.Common.{
  String, Bool, true, false, not, ◌||◌, List, [], ◌∷◌, Option, none, some, Result, ok, err, ◌>>=◌,
  ◌==◌, nat_eq, string_eq, is_empty, if◌then◌else◌,
}
use Prim.Native.Char.{code}
use Prim.Native.String.{◌++◌ as append}
use ferrumgw.Common.DashMap.{DashMap}

pub record RequestTransformerConfig : Type 0 where
  pub add_headers : List (String × String)
  pub remove_headers : List String
  pub replace_headers : List (String × String)
  pub add_query_params : List (String × String)
  pub remove_query_params : List String
  pub replace_query_params : List (String × String)

-- `RequestTransformerConfig::default()`
abbrev pub default_config : RequestTransformerConfig
default_config = record {
  add_headers = [];
  remove_headers = [];
  replace_headers = [];
  add_query_params = [];
  remove_query_params = [];
  replace_query_params = [];
}

-- `RequestTransformerPlugin::new`, from the settings as serde reads them.
abbrev pub new_plugin :
    {Error : Type 0} → Result Error RequestTransformerConfig → RequestTransformerConfig
new_plugin (ok config) = config
new_plugin (err e) = default_config

-- The headers of a request: `http::HeaderMap`, with its names and values.
pub record HeaderMap : Type 1 where
  pub Headers : Type 0
  pub Name : Type 0
  pub Value : Type 0
  pub remove : Headers → String → Headers
  pub contains_key : Headers → String → Bool
  pub insert : Headers → Name → Value → Headers
  pub from_bytes : String → Option Name
  pub from_str : String → Option Value
  pub x_invalid_header : Name
  pub empty_value : Value

abbrev unwrap_or : {A : Type 0} → Option A → A → A
unwrap_or (some a) d = a
unwrap_or none d = d

module _ (H : HeaderMap) where
  open H use {Headers, Name, Value}

  abbrev pub remove_headers : Headers → List String → Headers
  remove_headers h [] = h
  remove_headers h (name ∷ names) = remove_headers (H.remove h name) names

  -- `unwrap` of the name and of the value.
  abbrev pub insert_unwrapped : Headers → Option Name → Option Value → Option Headers
  insert_unwrapped h (some name) (some value) = some (H.insert h name value)
  insert_unwrapped h name value = none

  abbrev pub replace_headers : Headers → List (String × String) → Option Headers
  replace_headers h [] = some h
  replace_headers h ((name, value) ∷ rest) =
      if H.contains_key h name
      then elim (insert_unwrapped h (H.from_bytes name) (H.from_str value)) [
        | some h' ↦ replace_headers h' rest
        | none ↦ none
      ]
      else replace_headers h rest

  abbrev pub add_headers : Headers → List (String × String) → Headers
  add_headers h [] = h
  add_headers h ((name, value) ∷ rest) =
      add_headers
        (if H.contains_key h name
          then h
          else H.insert h (unwrap_or (H.from_bytes name) H.x_invalid_header)
              (unwrap_or (H.from_str value) H.empty_value))
        rest

  unfoldable pub transform_headers : RequestTransformerConfig → Headers → Option Headers
  transform_headers config h =
      elim (replace_headers (remove_headers h config.remove_headers) config.replace_headers) [
        | some h' ↦ some (add_headers h' config.add_headers)
        | none ↦ none
      ]

-- `query.split('&')`: the first part, and the others.
abbrev pub split_ampersand : String → String × List String
split_ampersand String.[] = (String.[], [])
split_ampersand (String.◌∷◌ c s) =
    let (first, rest) = split_ampersand s in
    if code c == 38 then (String.[], first ∷ rest) else (String.◌∷◌ c first, rest)

-- `pair.splitn(2, '=')`: the name, and the value where there is a sign.
abbrev pub splitn_equals : String → String × Option String
splitn_equals String.[] = (String.[], none)
splitn_equals (String.◌∷◌ c s) =
    let (name, value) = splitn_equals s in
    if code c == 61 then (String.[], some s) else (String.◌∷◌ c name, value)

module _ (D : DashMap String) where
  open D use {Map}

  -- One pair: without a value, the `else if` asks the split, which has ended, for a name once more.
  abbrev pub insert_pair : Map → String × Option String → Map
  insert_pair m (name, some value) = D.insert m name value
  insert_pair m (name, none) = m

  abbrev pub insert_pairs : Map → List String → Map
  insert_pairs m [] = m
  insert_pairs m (pair ∷ pairs) = insert_pairs (insert_pair m (splitn_equals pair)) pairs

  unfoldable pub parse_query : Option String → Map
  parse_query none = D.empty
  parse_query (some query) =
      let (first, rest) = split_ampersand query in insert_pairs D.empty (first ∷ rest)

  abbrev pub has_param : Map → String → Bool
  has_param m name = elim (D.get m name) [ some value ↦ true | none ↦ false ]

  abbrev pub remove_params : Map → List String → Map
  remove_params m [] = m
  remove_params m (name ∷ names) = remove_params (D.remove m name) names

  abbrev pub replace_params : Map → List (String × String) → Map
  replace_params m [] = m
  replace_params m ((name, value) ∷ rest) =
      replace_params (if has_param m name then D.insert m name value else m) rest

  abbrev pub add_params : Map → List (String × String) → Map
  add_params m [] = m
  add_params m ((name, value) ∷ rest) =
      add_params (if has_param m name then m else D.insert m name value) rest

  -- `transform_query_params`, up to the new query.
  unfoldable pub transformed_params : RequestTransformerConfig → Option String → Map
  transformed_params config query =
      add_params
        (replace_params (remove_params (parse_query query) config.remove_query_params)
          config.replace_query_params)
        config.add_query_params

-- `join("&")` of the pairs.
abbrev pub format_pair : String × String → String
format_pair (name, value) = if value == "" then name else append name (append "=" value)

abbrev pub join_pairs : List (String × String) → String
join_pairs [] = ""
join_pairs (p ∷ []) = format_pair p
join_pairs (p ∷ q ∷ rest) = append (format_pair p) (append "&" (join_pairs (q ∷ rest)))

-- What the plugin asks of `hyper::Uri`: the parts, and the parts with another path and query.
pub record UriOps (Uri Error : Type 0) : Type 1 where
  pub path : Uri → String
  pub query : Uri → Option String
  pub PathAndQuery : Type 0
  pub parse : String → Result Error PathAndQuery
  pub with_path_and_query : Uri → PathAndQuery → Result Error Uri

module _ (D : DashMap String) (iter : D.Map → List (String × String)) {Uri Error : Type 0}
    (U : UriOps Uri Error) where
  abbrev pub path_with : String → String → String
  path_with path query = if query == "" then path else append path (append "?" query)

  -- `transform_query_params`
  unfoldable pub transform_query_params : RequestTransformerConfig → Uri → Result Error Uri
  transform_query_params config uri =
      let query = join_pairs (iter (transformed_params D config (U.query uri))) in
      U.parse (path_with (U.path uri) query) >>= U.with_path_and_query uri

  pub record Request (H : HeaderMap) : Type 0 where
    pub headers : H.Headers
    pub uri : Uri

  abbrev pub changes_query : RequestTransformerConfig → Bool
  changes_query config =
      not (is_empty config.add_query_params)
      || not (is_empty config.remove_query_params)
      || not (is_empty config.replace_query_params)

  -- The request after the query was changed or not.
  abbrev pub finish :
      (H : HeaderMap) → H.Headers → Uri → Result Error Uri → Request H × Result Error Bool
  finish H headers uri (ok uri') = (record { headers = headers; uri = uri' }, ok true)
  finish H headers uri (err e) = (record { headers = headers; uri = uri }, err e)

  -- `before_proxy`; `none` is the panic of a replaced header.
  unfoldable pub before_proxy :
      (H : HeaderMap)
      → RequestTransformerConfig
      → Request H
      → Option (Request H × Result Error Bool)
  before_proxy H config req = elim (transform_headers H config req.headers) [
    | some headers ↦ some (
        finish H headers req.uri
          (if changes_query config then transform_query_params config req.uri else ok req.uri))
    | none ↦ none
  ]

-- ===== src/Tests/Interface.antt =====
-- The theorems about the administration interface, at concrete values.
use ferrumgw.Common.{
  Result, inl, false, ◌⊎◌, if◌then◌else◌, ◌==◌, string_eq, ◌≡◌, sym, ◌≢◌, refl, String, ascii, List,
  [], ◌∷◌, some, ok, err, string_eq, arith,
}
use mathlib.Core.Bool.{true}
use ferrumgw.Config.{Proxy, Consumer}
use ferrumgw.Admin.Api.{
  OperationMode, database, file, unless_file_mode, read_only, respond, internal_server_error,
}
use ferrumgw.Admin.Api.{Done, reply}
use ferrumgw.Admin.Gate.{unauthorized, handle_request}
use ferrumgw.Admin.Gate.Laws.{HasToken, handle_request_needs_token}
use ferrumgw.Admin.Proxies.{ProxyTable}
use ferrumgw.Admin.Proxies.Guards.{create, write, IsGuarded, write-IsGuarded}
use ferrumgw.Admin.Consumers.{ConsumerTable}
use ferrumgw.Admin.Consumers.Hashing.{Hashing, is_hashed}
use ferrumgw.Admin.Consumers.Hashing.Laws.{HashingLaws}
use ferrumgw.Admin.Consumers.Credentials.{update_consumer_credentials}
use ferrumgw.Admin.Consumers.Credentials.Stored.{Wrote, update_stores_hashed, update_stores_plain}
use ferrumgw.Tests.Samples.{proxy_at, served, alice}

-- A database that keeps the ids that were written.
abbrev proxy_log : ProxyTable (List String) String
proxy_log = record {
  create_proxy = λ db p. (p.id ∷ db, ok p);
  update_proxy = λ db p. (p.id ∷ db, ok tt);
  delete_proxy = λ db id. (id ∷ db, ok tt);
  get_proxy_by_id = λ db id. err "none";
  to_json = λ p. ok p.id;
}

abbrev items : Proxy
items = proxy_at "items" (ascii "/items")

write-IsGuarded_example :
    IsGuarded proxy_log database true served []
      (write proxy_log database true (create (ok items)) served 7 [])
write-IsGuarded_example =
    write-IsGuarded proxy_log database true (create (ok items)) served 7 [] (refl, (refl, tt))
      (refl, (refl, tt))

abbrev consumer_log : ConsumerTable (List Consumer) String
consumer_log = record {
  create_consumer = λ db c. (c ∷ db, ok c.id);
  update_consumer = λ db c. (c ∷ db, ok tt);
  delete_consumer = λ db id. (db, ok tt);
  get_consumer_by_id = λ db id. err "none";
  to_json = λ c. ok c.id;
}

-- A value is its secret, and every digest is the mark alone.
abbrev marking : Hashing String String
marking = record {
  get_str = λ value field. some value;
  set_str = λ value field text. text;
  hash = λ secret. ok "$2b$";
}

digest-IsHashed :
    (secret digest : String) → marking.hash secret ≡ ok digest → is_hashed digest ≡ true
unfolding is_hashed
digest-IsHashed secret digest e = rw (sym (ok_path e)) refl
  where
    ok_path : marking.hash secret ≡ ok digest → "$2b$" ≡ digest
    ok_path h = ground arith

marking_laws : HashingLaws marking
marking_laws = record { get-set = λ v field text. refl; hash-marked = digest-IsHashed }

not_file : database ≢ file
not_file e = ground arith

update_stores_hashed_example :
    Wrote consumer_log marking ok "no consumer" "no credential" []
      (update_consumer_credentials consumer_log database marking ok "no consumer" "no credential"
        "c1" "key-auth" served 7 []
        (ok "secret"))
      alice
      7
      "key-auth"
      (some "$2b$")
update_stores_hashed_example =
    update_stores_hashed consumer_log marking ok "no consumer" "no credential" database "c1"
      "key-auth" "key" "secret" "secret" "$2b$" served 7 [] alice "key-auth" not_file refl
      (inl (refl, refl)) refl (refl, refl, refl) refl

-- The type as REQUIREMENTS.md spells it.
update_stores_plain_example :
    Wrote consumer_log marking ok "no consumer" "no credential" []
      (update_consumer_credentials consumer_log database marking ok "no consumer" "no credential"
        "c1" "keyauth" served 7 []
        (ok "secret"))
      alice
      7
      "keyauth"
      (some "secret")
update_stores_plain_example =
    update_stores_plain consumer_log marking ok "no consumer" "no credential" database "c1"
      "keyauth" "secret" served 7 [] alice "keyauth" not_file refl refl refl refl

abbrev decode_text : String → Result String String
decode_text token = if token == "good" then ok "admin" else err "bad token"

-- A route that changes the database.
abbrev drop_all : String → List String → Done (List String) String
drop_all claims db = reply [] false 204 ferrumgw.Admin.Api.empty

handle_request_needs_token_example :
    HasToken decode_text "missing" "invalid" (some (ok "Bearer bad"))
    ⊎ (((handle_request decode_text "missing" "invalid" drop_all "/proxies"
            (some (ok "Bearer bad"))
            ("p" ∷ [])).0.status
          ≡ unauthorized)
        × ((handle_request decode_text "missing" "invalid" drop_all "/proxies"
              (some (ok "Bearer bad"))
              ("p" ∷ [])).1
            ≡ "p" ∷ []))
handle_request_needs_token_example =
    handle_request_needs_token decode_text "missing" "invalid" drop_all "/proxies"
      (some (ok "Bearer bad")) ("p" ∷ []) refl

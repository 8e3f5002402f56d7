-- ===== src/Admin/Consumers/Hashing.antt =====
-- src/admin/routes/consumers.rs, `hash_credential`: the secret of a credential is hashed before it is
-- stored. The record `Hashing` has the crates' operations: `Value::get` and the assignment of a text
-- to a field, of serde_json, and `hash` of bcrypt.
pub mod Laws
use ferrumgw.Common.{
  String, Bool, Option, none, some, ◌||◌, Result, ok, err, ◌==◌, string_eq, starts_with,
  if◌then◌else◌,
}

pub record Hashing (Value Error : Type 0) : Type 0 where
  pub get_str : Value → String → Option String
  pub set_str : Value → String → String → Value
  pub hash : String → Result Error String

-- The field that holds the secret, for the types of credential that have one.
unfoldable pub secret_field : String → Option String
secret_field cred_type =
    if cred_type == "key-auth"
    then some "key"
    else if cred_type == "basic-auth"
    then some "password"
    else if cred_type == "oauth2"
    then some "client_secret"
    else none

unfoldable pub is_hashed : String → Bool
is_hashed secret =
    starts_with secret "$2y$" || starts_with secret "$2a$" || starts_with secret "$2b$"

module _ {Value Error : Type 0} (H : Hashing Value Error) where
  abbrev pub replace_secret : Value → String → Result Error String → Result Error Value
  replace_secret value field (ok digest) = ok (H.set_str value field digest)
  replace_secret value field (err e) = err e

  unfoldable pub hash_secret : Value → String → Option String → Result Error Value
  hash_secret value field none = ok value
  hash_secret value field (some secret) =
      if is_hashed secret then ok value else replace_secret value field (H.hash secret)

  unfoldable pub hash_field : Value → Option String → Result Error Value
  hash_field value none = ok value
  hash_field value (some field) = hash_secret value field (H.get_str value field)

  unfoldable pub hash_credential : String → Value → Result Error Value
  hash_credential cred_type value = hash_field value (secret_field cred_type)

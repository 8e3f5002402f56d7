-- ===== src/Admin/Consumers/Credentials/Stored.antt =====
-- src/admin/routes/consumers.rs: the consumer that the handlers of the credentials write.
use ferrumgw.Common.{
  ℕ, String, ◌≡◌, ◌≢◌, refl, ◌⊎◌, inl, inr, starts_with, Bool, true, false, [], ◌∷◌, Option, none,
  some, Result, ok, err, any, ◌==◌, ==_iff, string_eq, if◌then◌else◌, arith,
}
use ferrumgw.Config.{Consumer, Configuration}
use ferrumgw.Admin.Api.{OperationMode, Done, unless_file_mode, reply_json}
use ferrumgw.Admin.Consumers.{ConsumerTable}
use ferrumgw.Admin.Consumers.Hashing.{
  Hashing, hash_credential, hash_field, hash_secret, is_hashed, secret_field,
}
use ferrumgw.Admin.Consumers.Credentials.{
  Credentials, credential_of, remove_credential, insert_credential, found,
  update_consumer_credentials, hash_and_store, store_hashed, store_in, after_store,
  delete_consumer_credentials, drop_from, after_drop,
}

credential_of-remove :
    (kind j : String) (credentials : Credentials)
    → credential_of (remove_credential kind credentials) j
      ≡ (if kind == j then none else credential_of credentials j)
unfolding remove_credential
credential_of-remove kind j [] = ground arith
credential_of-remove kind j ((name, value) ∷ rest) =
    ground (arith, ==_iff name kind, ==_iff name j, ==_iff kind j, credential_of-remove kind j rest)

credential_of-insert :
    (kind value j : String) (credentials : Credentials)
    → credential_of (insert_credential kind value credentials) j
      ≡ (if kind == j then some value else credential_of credentials j)
unfolding insert_credential
credential_of-insert kind value j credentials =
    ground (arith, credential_of-remove kind j credentials)

module _ {Db Error : Type 0} (T : ConsumerTable Db Error) (hashing : Hashing String Error)
    (value_to_json : String → Result Error String)
    (consumer_not_found credential_not_found : Error) where
  unless_file_mode-other :
      (mode : OperationMode) (db : Db) (rest : Done Db Error)
      → mode ≢ OperationMode.file
      → unless_file_mode mode db rest ≡ rest
  unfolding unless_file_mode
  unless_file_mode-other OperationMode.file db rest h = ground arith
  unless_file_mode-other OperationMode.database db rest h = refl
  unless_file_mode-other OperationMode.control_plane db rest h = refl
  unless_file_mode-other OperationMode.data_plane db rest h = refl

  -- The consumer `c` was written with other credentials and the time of the update, and nothing else changed;
  -- what it then has of the type `j` is `expected`.
  abbrev pub Wrote : Db → Done Db Error → Consumer → ℕ → String → Option String → Type 0
  Wrote db d c now j expected =
      (credentials : Credentials) × (d.db
        ≡ (T.update_consumer db (record c { credentials = credentials; updated_at = now })).0)
      × (credential_of credentials j ≡ expected)

  reply_json-db :
      (db : Db) (notified : Bool) (status : ℕ) (o : Result Error String)
      → (reply_json db notified status o).db ≡ db
  reply_json-db db notified status (ok text) = refl
  reply_json-db db notified status (err e) = refl

  after_store-db :
      (mode : OperationMode) (credential : String) (r : Db × Result Error (Unit {0}))
      → (after_store T mode hashing value_to_json consumer_not_found credential_not_found credential
          r).db
        ≡ r.0
  unfolding after_store
  after_store-db mode credential (db, ok u) = reply_json-db db false 200 (value_to_json credential)
  after_store-db mode credential (db, err e) = refl

  after_drop-db :
      (mode : OperationMode) (r : Db × Result Error (Unit {0}))
      → (after_drop T mode hashing value_to_json consumer_not_found credential_not_found r).db ≡ r.0
  unfolding after_drop
  after_drop-db mode (db, ok u) = refl
  after_drop-db mode (db, err e) = refl

  -- The types of credential that the handler hashes, with the field that holds the secret.
  abbrev pub IsSecret : String → String → Type 0
  IsSecret kind field =
      ((kind ≡ "key-auth") × (field ≡ "key"))
      ⊎ (((kind ≡ "basic-auth") × (field ≡ "password"))
          ⊎ ((kind ≡ "oauth2") × (field ≡ "client_secret")))

  secret_field_lem : (kind field : String) → IsSecret kind field → secret_field kind ≡ some field
  unfolding secret_field
  secret_field_lem kind field (inl (k, f)) = rw (k, f) refl
  secret_field_lem kind field (inr (inl (k, f))) = rw (k, f) refl
  secret_field_lem kind field (inr (inr (k, f))) = rw (k, f) refl

  -- The secret begins like no hash of bcrypt.
  abbrev pub IsPlain : String → Type 0
  IsPlain secret =
      (starts_with secret "$2y$" ≡ false)
      × (starts_with secret "$2a$" ≡ false)
      × (starts_with secret "$2b$" ≡ false)

  hash_credential-secret :
      (kind field value secret digest : String)
      → IsSecret kind field
      → hashing.get_str value field ≡ some secret
      → IsPlain secret
      → hashing.hash secret ≡ ok digest
      → hash_credential hashing kind value ≡ ok (hashing.set_str value field digest)
  unfolding hash_credential hash_field hash_secret is_hashed
  hash_credential-secret kind field value secret digest known held (y, a, b) hashed =
      rw (secret_field_lem kind field known, held, y, a, b, hashed) refl

  hash_credential-other :
      (kind value : String)
      → (kind == "key-auth") ≡ false
      → (kind == "basic-auth") ≡ false
      → (kind == "oauth2") ≡ false
      → hash_credential hashing kind value ≡ ok value
  unfolding hash_credential secret_field hash_field
  hash_credential-other kind value k b o = rw (k, b, o) refl

  update_stores :
      (mode : OperationMode) (id kind value credential : String) (config : Configuration) (now : ℕ)
      (db : Db) (c : Consumer) (j : String)
      → mode ≢ OperationMode.file
      → found id config ≡ some c
      → hash_credential hashing kind value ≡ ok credential
      → Wrote db
          (update_consumer_credentials T mode hashing value_to_json consumer_not_found
            credential_not_found id kind config now db
            (ok value))
          c
          now
          j
          (if kind == j then some credential else credential_of c.credentials j)
  unfolding update_consumer_credentials hash_and_store store_hashed store_in
  update_stores mode id kind value credential config now db c j m f h =
      rw (unless_file_mode-other mode db _ m, h, f)
        (
          insert_credential kind credential c.credentials,
          after_store-db mode credential (T.update_consumer db _),
          credential_of-insert kind credential j c.credentials,
        )

  -- Outside file mode, for a consumer that is in memory, a credential of the type `key-auth`, `basic-auth` or
  -- `oauth2` with a secret that begins like no hash of bcrypt, and whose secret bcrypt hashes: the handler
  -- writes the consumer with the hash in place of the secret in the credential of that type, with its other
  -- credentials and all other fields as they were, and the time of the update.
  pub update_stores_hashed :
      (mode : OperationMode) (id kind field value secret digest : String) (config : Configuration)
      (now : ℕ) (db : Db) (c : Consumer) (j : String)
      → mode ≢ OperationMode.file
      → found id config ≡ some c
      → IsSecret kind field
      → hashing.get_str value field ≡ some secret
      → IsPlain secret
      → hashing.hash secret ≡ ok digest
      → Wrote db
          (update_consumer_credentials T mode hashing value_to_json consumer_not_found
            credential_not_found id kind config now db
            (ok value))
          c
          now
          j
          (if kind == j
            then some (hashing.set_str value field digest)
            else credential_of c.credentials j)
  update_stores_hashed mode id kind field value secret digest config now db c j m f known held plain
        hashed =
      update_stores mode id kind value (hashing.set_str value field digest) config now db c j m f
        (hash_credential-secret kind field value secret digest known held plain hashed)

  -- Outside file mode, for a consumer that is in memory and a credential of any other type: the handler
  -- writes the consumer with the credential as it was given, a secret in it unhashed.
  pub update_stores_plain :
      (mode : OperationMode) (id kind value : String) (config : Configuration) (now : ℕ) (db : Db)
      (c : Consumer) (j : String)
      → mode ≢ OperationMode.file
      → found id config ≡ some c
      → (kind == "key-auth") ≡ false
      → (kind == "basic-auth") ≡ false
      → (kind == "oauth2") ≡ false
      → Wrote db
          (update_consumer_credentials T mode hashing value_to_json consumer_not_found
            credential_not_found id kind config now db
            (ok value))
          c
          now
          j
          (if kind == j then some value else credential_of c.credentials j)
  update_stores_plain mode id kind value config now db c j m f key basic oauth =
      update_stores mode id kind value value config now db c j m f
        (hash_credential-other kind value key basic oauth)

  -- Outside file mode, for a consumer that is in memory and has a credential of the type: the
  -- handler writes a consumer without it, whose other credentials are as they were.
  pub delete_removes :
      (mode : OperationMode) (id kind : String) (config : Configuration) (now : ℕ) (db : Db)
      (c : Consumer) (j : String)
      → mode ≢ OperationMode.file
      → found id config ≡ some c
      → any (λ kv. kv.0 == kind) c.credentials ≡ true
      → Wrote db
          (delete_consumer_credentials T mode hashing value_to_json consumer_not_found
            credential_not_found id kind config now db)
          c
          now
          j
          (if kind == j then none else credential_of c.credentials j)
  unfolding delete_consumer_credentials drop_from
  delete_removes mode id kind config now db c j m f h =
      rw (unless_file_mode-other mode db _ m, f, h)
        (
          remove_credential kind c.credentials,
          after_drop-db mode (T.update_consumer db _),
          credential_of-remove kind j c.credentials,
        )

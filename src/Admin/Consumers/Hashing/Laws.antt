-- ===== src/Admin/Consumers/Hashing/Laws.antt =====
-- src/admin/routes/consumers.rs: what `hash_credential` leaves.
use ferrumgw.Common.{
  String, ◌≡◌, refl, true, Bool-cases, inl, inr, ◌⊎◌, Option, none, some, Result, ok, err, arith,
}
use ferrumgw.Admin.Consumers.Hashing.{
  Hashing, secret_field, is_hashed, replace_secret, hash_secret, hash_field, hash_credential,
}

-- What the documentation of the crates says: a field that was set holds the text, and what bcrypt
-- returns begins with the mark of its version.
pub record HashingLaws {Value Error : Type 0} (H : Hashing Value Error) : Type 0 where
  pub get-set :
      (v : Value) (field text : String) → H.get_str (H.set_str v field text) field ≡ some text
  pub hash-marked : (secret digest : String) → H.hash secret ≡ ok digest → is_hashed digest ≡ true

module _ {Value Error : Type 0} (H : Hashing Value Error) (laws : HashingLaws H) where
  -- The field has no text, or one with the mark of bcrypt.
  abbrev pub IsProtected : Value → Option String → Type 0
  IsProtected value none = Unit
  IsProtected value (some field) =
      (H.get_str value field ≡ none)
      ⊎ ((digest : String) × (H.get_str value field ≡ some digest) × (is_hashed digest ≡ true))

  replace_secret-IsProtected :
      (value v : Value) (field secret : String) (o : Result Error String)
      → H.hash secret ≡ o
      → replace_secret H value field o ≡ ok v
      → IsProtected v (some field)
  replace_secret-IsProtected value v field secret (err e) eq h = ground arith
  replace_secret-IsProtected value v field secret (ok digest) eq h =
      inr
        (digest, ground (arith, laws.get-set value field digest), laws.hash-marked secret digest eq)

  hash_secret-IsProtected :
      (value v : Value) (field : String) (secret : Option String)
      → H.get_str value field ≡ secret
      → hash_secret H value field secret ≡ ok v
      → IsProtected v (some field)
  unfolding hash_secret
  hash_secret-IsProtected value v field none eq h = inl (ground arith)
  hash_secret-IsProtected value v field (some secret) eq h = elim (Bool-cases (is_hashed secret)) [
    | inl marked ↦ inr (secret, ground arith, marked)
    | inr plain ↦
        replace_secret-IsProtected value v field secret (H.hash secret) refl (rw plain at h)
  ]

  hash_field-IsProtected :
      (value v : Value) (field : Option String)
      → hash_field H value field ≡ ok v
      → IsProtected v field
  unfolding hash_field
  hash_field-IsProtected value v none h = tt
  hash_field-IsProtected value v (some field) h =
      hash_secret-IsProtected value v field (H.get_str value field) refl h

  protected-again :
      (v : Value) (field : Option String) → IsProtected v field → hash_field H v field ≡ ok v
  unfolding hash_field hash_secret
  protected-again v none p = refl
  protected-again v (some field) (inl e) = rw e refl
  protected-again v (some field) (inr (digest, e, marked)) = rw (e, marked) refl

  -- A credential that `hash_credential` returns holds no unmarked secret in the field of its type,
  -- and hashing it again leaves it as it is: a stored hash is never hashed twice. The laws are those
  -- of the crates.
  hash_credential_again :
      (cred_type : String) (value v : Value)
      → hash_credential H cred_type value ≡ ok v
      → IsProtected v (secret_field cred_type) × (hash_credential H cred_type v ≡ ok v)
  unfolding hash_credential
  hash_credential_again cred_type value v h =
      let protected = hash_field-IsProtected value v (secret_field cred_type) h in
      (protected, protected-again v (secret_field cred_type) protected)

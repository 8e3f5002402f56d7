-- ===== src/Grpc/ControlPlane/Access.antt =====
-- src/modes/control_plane.rs, module `grpc`: which data planes are served.
use ferrumgw.Common.{
  ℕ, String, ◌≡◌, ◌⊎◌, inl, inr, refl, true, false, Option, none, some, [], ◌∷◌, Result, ok, err,
  ◌==◌, ==_iff, string_eq, strip_prefix, arith, Bool-cases,
}
use ferrumgw.Grpc.Conversions.{Codec}
use ferrumgw.Grpc.ControlPlane.{
  SharedState, Status, Claims, unauthenticated, check_header, validate_jwt, validate_jwt_token,
  check_role, check_stripped, subscribe_config_updates, get_config_snapshot, insert_client,
  create_config_update, create_config_snapshot, register_client,
}

module _ (decode : String → Option Claims) where
  -- The token is valid, and names no role or the one of data planes.
  abbrev pub IsDataPlaneToken : String → Type 0
  IsDataPlaneToken token =
      (claims : Claims) × (decode token ≡ some claims)
      × ((claims.role ≡ "") ⊎ (claims.role ≡ "data_plane"))

  -- The header is the word Bearer with such a token.
  abbrev pub IsAuthorized : Option (Option String) → Type 0
  IsAuthorized header =
      (auth_token : String) × (token : String) × (header ≡ some (some auth_token))
      × (strip_prefix auth_token "Bearer " ≡ some token)
      × IsDataPlaneToken token

  -- A check lets a header pass that is authorized, or refuses one that is not.
  abbrev pub Decides : Type 0 → Result Status (Unit {0}) → Type 0
  Decides P answer = ((answer ≡ ok tt) × P) ⊎ ((answer ≡ err unauthenticated) × ¬ P)

  other_role :
      (token : String) (claims : Claims)
      → decode token ≡ some claims
      → (claims.role == "") ≡ false
      → (claims.role == "data_plane") ≡ false
      → ¬ IsDataPlaneToken token
  other_role token claims e named wrong (other, e', inl none_named) =
      ground (arith, ==_iff other.role "")
  other_role token claims e named wrong (other, e', inr right) =
      ground (arith, ==_iff other.role "data_plane")

  role-Decides :
      (token : String) (o : Option Claims)
      → decode token ≡ o
      → Decides (IsDataPlaneToken token) (check_role decode o)
  role-Decides token none e = inr (refl, λ (claims, e', role). cc)
  role-Decides token (some claims) e = elim (Bool-cases (claims.role == "")) [
    | inl unnamed ↦ rw unnamed (inl (refl, (claims, e, inl ((==_iff claims.role "").0 unnamed))))
    | inr named ↦ elim (Bool-cases (claims.role == "data_plane")) [
      | inl right ↦
          rw (named, right)
            (inl (refl, (claims, e, inr ((==_iff claims.role "data_plane").0 right))))
      | inr wrong ↦ rw (named, wrong) (inr (refl, other_role token claims e named wrong))
    ]
  ]

  same_token :
      (auth auth' token token' : String)
      → some (some auth) ≡ some (some auth')
      → strip_prefix auth "Bearer " ≡ some token
      → strip_prefix auth' "Bearer " ≡ some token'
      → token' ≡ token
  same_token auth auth' token token' same e e' = cc

  stripped-Decides :
      (auth_token : String) (o : Option String)
      → strip_prefix auth_token "Bearer " ≡ o
      → Decides (IsAuthorized (some (some auth_token))) (check_stripped decode o)
  unfolding validate_jwt_token
  stripped-Decides auth_token none e =
      inr (refl, λ (auth, token, same, stripped, valid). ground arith)
  stripped-Decides auth_token (some token) e = elim (role-Decides token (decode token) refl) [
    | inl (passed, valid) ↦ inl (passed, (auth_token, token, refl, e, valid))
    | inr (refused, invalid) ↦ inr (
      refused,
      λ (auth, other, same, stripped, valid).
          invalid (rw (same_token auth_token auth token other same e stripped) at valid),
    )
  ]

  header-Decides :
      (header : Option (Option String)) → Decides (IsAuthorized header) (check_header decode header)
  unfolding check_header validate_jwt
  header-Decides none = inr (refl, λ (auth, token, same, stripped, valid). cc)
  header-Decides (some none) = inr (refl, λ (auth, token, same, stripped, valid). cc)
  header-Decides (some (some auth_token)) =
      stripped-Decides auth_token (strip_prefix auth_token "Bearer ") refl

  -- Who presents the word Bearer with a valid token, which names no role or the one of data planes, is
  -- registered with a channel that holds the configuration of the control plane and its version, and
  -- gets the same in a snapshot; anybody else is answered unauthenticated and leaves the state as it is.
  pub served_needs_token :
      {Error : Type 0} (codec : Codec Error) (now : ℕ) (node_id : String)
      (header : Option (Option String)) (s : SharedState)
      → (IsAuthorized header
          × (subscribe_config_updates codec decode now node_id header s ≡ (
            ok tt,
            record s {
              clients =
                  insert_client node_id
                    (record {
                      is_open = true;
                      sent = create_config_update codec now s.shared_config s.version ∷ [];
                    })
                    s.clients;
            },
          ))
          × (get_config_snapshot codec decode now header s
              ≡ ok (create_config_snapshot codec now s)))
        ⊎ ((¬ IsAuthorized header)
            × (subscribe_config_updates codec decode now node_id header s
                ≡ (err unauthenticated, s))
            × (get_config_snapshot codec decode now header s ≡ err unauthenticated))
  unfolding subscribe_config_updates get_config_snapshot register_client
  served_needs_token codec now node_id header s = elim (header-Decides header) [
    | inl (passed, authorized) ↦ inl (authorized, rw passed refl, rw passed refl)
    | inr (refused, other) ↦ inr (other, rw refused refl, rw refused refl)
  ]

-- ===== src/Config/Env/Validation.antt =====
-- src/config/env_config.rs: the validation comes before the settings that it asks for.
use ferrumgw.Common.{◌≡◌, ◌≢◌, refl, none, Result, ok, err, ◌>>=◌, arith}
use ferrumgw.Modes.{OperationMode, database, file, control_plane, data_plane}
use ferrumgw.Config.Env.{
  EnvConfigError, EnvConfig, Parsers, Environment, required, parse_mode, validate_mode,
}
use ferrumgw.Config.Env.Reading.{parse_optional_port, read_initial, from_env, initial_config}

-- The settings that no mode goes without have no value.
abbrev pub IsBlank : EnvConfig → Type 0
IsBlank config =
    (config.db_type ≡ none) × (config.file_config_path ≡ none) × (config.dp_cp_grpc_url ≡ none)

-- A chain whose later part never succeeds does not succeed.
bind-fails :
    {A B : Type 0} (P : A → Type 0) (o : Result EnvConfigError A) (f : A → Result EnvConfigError B)
    (b : B)
    → ((a : A) → o ≡ ok a → P a)
    → ((a : A) → P a → f a ≢ ok b)
    → (o >>= f) ≢ ok b
bind-fails P (ok a) f b holds fails e = fails a (holds a refl) e
bind-fails P (err x) f b holds fails e = ground arith

validate_blank :
    (mode : OperationMode) (config : EnvConfig)
    → IsBlank config
    → (u : Unit {0}) → validate_mode mode config ≢ ok u
unfolding validate_mode
validate_blank database config (db, path, url) u e = ground arith
validate_blank file config (db, path, url) u e = ground arith
validate_blank control_plane config (db, path, url) u e = ground arith
validate_blank data_plane config (db, path, url) u e = ground arith

bind-Holds :
    {A B : Type 0} (Q : B → Type 0) (o : Result EnvConfigError A) (f : A → Result EnvConfigError B)
    (b : B)
    → ((a : A) → f a ≡ ok b → Q b)
    → (o >>= f) ≡ ok b
    → Q b
bind-Holds Q (ok a) f b holds e = holds a e
bind-Holds Q (err x) f b holds e = ground arith

module _ (P : Parsers) (env : Environment) where
  ok-IsBlank :
      (c config : EnvConfig)
      → IsBlank c
      → ◌≡◌ {A = Result EnvConfigError EnvConfig} (ok c) (ok config)
      → IsBlank config
  ok-IsBlank c config (db, path, url) e = ground arith

  read_initial-IsBlank :
      (mode : OperationMode) (config : EnvConfig)
      → read_initial P env mode ≡ ok config
      → IsBlank config
  unfolding read_initial
  read_initial-IsBlank mode config =
      bind-Holds IsBlank (parse_optional_port P env "FERRUM_PROXY_HTTP_PORT" 8000) _ config (λ a.
        bind-Holds IsBlank (parse_optional_port P env "FERRUM_PROXY_HTTPS_PORT" 8443) _ config (λ b.
          bind-Holds IsBlank (parse_optional_port P env "FERRUM_PROXY_HTTP3_PORT" 8444) _ config
            (λ c.
              bind-Holds IsBlank (parse_optional_port P env "FERRUM_ADMIN_HTTP_PORT" 9000) _ config
                (λ d.
                  bind-Holds IsBlank (parse_optional_port P env "FERRUM_ADMIN_HTTPS_PORT" 9443) _
                    config
                    (λ e.
                      bind-Holds IsBlank (parse_optional_port P env "FERRUM_ADMIN_HTTP3_PORT" 9444)
                        _ config
                        (λ f.
                          ok-IsBlank (initial_config P env mode a b c d e f) config
                            (refl, refl, refl)))))))

  -- No environment gives a configuration: `from_env` tests the settings of the mode before it has
  -- read them, so that in every mode one of them is missing.
  pub from_env_never_succeeds : (config : EnvConfig) → from_env P env ≢ ok config
  unfolding from_env
  from_env_never_succeeds config =
      bind-fails (λ text. Unit {0}) (required env "FERRUM_MODE") _ config (λ text e. tt)
        (λ text u.
          bind-fails (λ mode. Unit {0}) (parse_mode text) _ config (λ mode e. tt)
            (λ mode v.
              bind-fails IsBlank (read_initial P env mode) _ config (read_initial-IsBlank mode)
                (λ c blank.
                  bind-fails (λ w. ⊥) (validate_mode mode c) _ config
                    (λ w e. validate_blank mode c blank w e) (λ w never. absurd never))))

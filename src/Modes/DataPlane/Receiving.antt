-- ===== src/Modes/DataPlane/Receiving.antt =====
-- src/modes/data_plane.rs: which configuration a connection leaves to be served.
use ferrumgw.Common.{
  ℕ, Bool-cases, inl, inr, ap, ◌≡◌, ◌∙◌, refl, List, [], ◌∷◌, Option, none, some, Result, ok, err,
}
use ferrumgw.Config.{Proxy, Configuration}
use ferrumgw.Grpc.Messages.{Entities}
use ferrumgw.Config.Delta.Lookup.{or_else}
use ferrumgw.Grpc.Conversions.{Codec, unwrap_or}
use ferrumgw.Grpc.Conversions.Reading.{into_configuration}
use ferrumgw.Modes.DataPlane.{
  Served, after_warm_up, after_update, process_updates, connect_to_control_plane, initial_with,
  subscribed_with, converted, has_grown, warmed,
}

module _ {Error Dns : Type 0} (codec : Codec Error) (now : ℕ)
    (warm_up : Dns → List Proxy → Option Dns) where
  -- The updates before the first error of the stream.
  abbrev pub delivered : List (Result Error Entities) → List Entities
  delivered [] = []
  delivered (ok update ∷ stream) = update ∷ delivered stream
  delivered (err e ∷ stream) = []

  abbrev pub to_option : {A : Type 0} → Result Error A → Option A
  to_option (ok a) = some a
  to_option (err e) = none

  -- The last of the updates that can be converted.
  abbrev pub last_converted : List Entities → Option Configuration
  last_converted [] = none
  last_converted (update ∷ updates) =
      or_else (last_converted updates) (to_option (into_configuration codec now update))

  -- Every warm-up returns.
  abbrev pub Returns : Type 0
  Returns = (dns : Dns) (proxies : List Proxy) → (dns' : Dns) × (warm_up dns proxies ≡ some dns')

  last-served :
      (config updated_config : Configuration) (last : Option Configuration)
      → unwrap_or updated_config last ≡ unwrap_or config (or_else last (some updated_config))
  last-served config updated_config none = refl
  last-served config updated_config (some d) = refl

  last-kept :
      (config : Configuration) (last : Option Configuration)
      → unwrap_or config last ≡ unwrap_or config (or_else last none)
  last-kept config none = refl
  last-kept config (some d) = refl

  warmed-returns :
      (returns : Returns) (config updated_config : Configuration) (dns : Dns)
      → (dns' : Dns) × (warmed codec now warm_up config updated_config dns ≡ some dns')
  warmed-returns returns config updated_config dns =
      elim (Bool-cases (has_grown codec now warm_up config updated_config)) [
        | inl grown ↦ let (dns', eq) = returns dns updated_config.proxies in (dns', rw grown eq)
        | inr not_grown ↦ (dns, rw not_grown refl)
      ]

  after_update-last :
      (returns : Returns) (rest : Configuration → Dns → Served codec now warm_up)
      (last : Option Configuration)
      → ((config : Configuration) (dns : Dns) → (rest config dns).0 ≡ unwrap_or config last)
      → (config : Configuration) (dns : Dns) (o : Result Error Configuration)
      → (after_update codec now warm_up rest config dns o).0
        ≡ unwrap_or config (or_else last (to_option o))
  after_update-last returns rest last h config dns (ok updated_config) =
      let (dns', warm) = warmed-returns returns config updated_config dns in
      ap (λ w. (after_warm_up codec now warm_up rest updated_config w).0) warm
      ∙ h updated_config dns'
      ∙ last-served config updated_config last
  after_update-last returns rest last h config dns (err e) = h config dns ∙ last-kept config last

  process_updates-last :
      (returns : Returns) (stream : List (Result Error Entities)) (config : Configuration)
      (dns : Dns)
      → (process_updates codec now warm_up stream config dns).0
        ≡ unwrap_or config (last_converted (delivered stream))
  unfolding process_updates
  process_updates-last returns [] config dns = refl
  process_updates-last returns (ok update ∷ stream) config dns =
      after_update-last returns (process_updates codec now warm_up stream)
        (last_converted (delivered stream)) (process_updates-last returns stream) config dns
        (into_configuration codec now update)
  process_updates-last returns (err e ∷ stream) config dns = refl

  -- What the stream delivers, if there is one.
  abbrev pub delivered_by : Result Error (List (Result Error Entities)) → List Entities
  delivered_by (ok stream) = delivered stream
  delivered_by (err e) = []

  -- The last update that can be converted, or else the snapshot.
  abbrev pub served_of :
      Result Error Configuration
      → Result Error (List (Result Error Entities))
      → Configuration
      → Configuration
  served_of (ok snapshot) stream config = unwrap_or snapshot (last_converted (delivered_by stream))
  served_of (err e) stream config = config

  initial-served :
      (returns : Returns) (o : Result Error Configuration)
      (stream : Result Error (List (Result Error Entities))) (config : Configuration) (dns : Dns)
      → (initial_with codec now warm_up o stream config dns).0 ≡ served_of o stream config
  initial-served returns (ok snapshot) (ok stream) config dns =
      let (dns', warm) = returns dns snapshot.proxies in
      rw warm (process_updates-last returns stream snapshot dns')
  initial-served returns (ok snapshot) (err e) config dns =
      let (dns', warm) = returns dns snapshot.proxies in rw warm refl
  initial-served returns (err e) stream config dns = refl

  -- Where every warm-up of the DNS cache returns: a connection leaves the configuration as it was where it
  -- gets no snapshot that can be converted; otherwise it leaves the last update, of those before the first
  -- error of the stream, that can be converted, or the snapshot where there is none.
  pub connect_serves_last :
      (returns : Returns) (snapshot : Result Error Entities)
      (stream : Result Error (List (Result Error Entities))) (config : Configuration) (dns : Dns)
      → (connect_to_control_plane codec now warm_up snapshot stream config dns).0
        ≡ served_of (converted codec now warm_up snapshot) stream config
  unfolding connect_to_control_plane
  connect_serves_last returns snapshot stream config dns =
      initial-served returns (converted codec now warm_up snapshot) stream config dns

  -- Where the warm-up after the snapshot never returns, the snapshot stays served whatever the stream
  -- brings, and the connection never ends.
  pub stuck_serves_snapshot :
      (snapshot : Result Error Entities) (stream : Result Error (List (Result Error Entities)))
      (config c : Configuration) (dns : Dns)
      → converted codec now warm_up snapshot ≡ ok c
      → warm_up dns c.proxies ≡ none
      → connect_to_control_plane codec now warm_up snapshot stream config dns ≡ (c, none)
  unfolding connect_to_control_plane
  stuck_serves_snapshot snapshot stream config c dns eq stuck =
      ap (λ o. initial_with codec now warm_up o stream config dns) eq
      ∙ ap (subscribed_with codec now warm_up stream c) stuck

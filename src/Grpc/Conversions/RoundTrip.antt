-- ===== src/Grpc/Conversions/RoundTrip.antt =====
-- What comes back when a configuration is sent as messages.
use ferrumgw.Common.{ℕ, ◌≡◌, refl, ap, List, [], ◌∷◌, map, Result, ok, string_eq, All}
use ferrumgw.Config.{PluginAssociation, Proxy, Consumer, PluginConfig, Configuration}
use ferrumgw.Grpc.Conversions.{
  Codec, proxy_to_proto, consumer_to_proto, plugin_config_to_proto, entities_of,
}
use ferrumgw.Grpc.Conversions.Reading.{
  convertible, convert_all, time_of, proxy_try_from, consumer_try_from, plugin_config_try_from,
  link_ids, linked_proxy, snapshot_to_configuration, into_configuration,
}
use ferrumgw.Grpc.Conversions.Fields.{
  text_lem, path_lem, ttl_lem, port_lem, protocol_lem, auth_mode_lem, IsLinked, IsExpressible,
  CodecLaws, IsSentConsumer, IsSentPlugin, IsSentProxy, IsSent,
}

-- The configuration as a data plane has it: no proxy has a plugin.
abbrev pub stripped : ℕ → Configuration → Configuration
stripped now config = record {
  proxies = map {A = Proxy} {B = Proxy} (λ p. record p { plugins = [] }) config.proxies;
  consumers = config.consumers;
  plugin_configs = config.plugin_configs;
  last_updated_at = now;
}

module _ {Error : Type 0} (codec : Codec Error) (laws : CodecLaws codec) (now : ℕ) where
  map_id : {A : Type 0} (xs : List A) → map (λ x. x) xs ≡ xs
  map_id [] = refl
  map_id (x ∷ xs) = ap (λ ys. x ∷ ys) (map_id xs)

  time_lem : (t : ℕ) → time_of codec now (codec.to_rfc3339 t) ≡ ok t
  time_lem t = rw (laws.to_rfc3339-filled t) (laws.parse-to_rfc3339 t)

  consumer_lem :
      (c : Consumer)
      → IsSentConsumer codec c
      → consumer_try_from codec now (consumer_to_proto codec c) ≡ ok c
  unfolding consumer_try_from consumer_to_proto
  consumer_lem c (filled, (s, written, nonempty, read)) =
      rw
        (
          time_lem c.created_at,
          time_lem c.updated_at,
          text_lem c.custom_id filled,
          written,
          nonempty,
          read,
        )
        refl

  plugin_config_lem :
      (pc : PluginConfig)
      → IsSentPlugin codec pc
      → plugin_config_try_from codec now (plugin_config_to_proto codec pc) ≡ ok pc
  unfolding plugin_config_try_from plugin_config_to_proto
  plugin_config_lem pc (filled, (s, written, nonempty, read)) =
      rw
        (
          time_lem pc.created_at,
          time_lem pc.updated_at,
          laws.scope_of-to_text pc.scope,
          text_lem pc.proxy_id filled,
          written,
          nonempty,
          read,
        )
        refl

  proxy_lem :
      (p : Proxy)
      → IsExpressible p
      → proxy_try_from codec now (proxy_to_proto codec p) ≡ ok (record p { plugins = [] })
  unfolding proxy_try_from proxy_to_proto
  proxy_lem p h =
      rw
        (
          time_lem p.created_at,
          time_lem p.updated_at,
          text_lem p.name h.name,
          protocol_lem p.backend_protocol,
          port_lem p.backend_port h.backend_port,
          path_lem p.backend_path h.backend_path,
          text_lem p.backend_tls_client_cert_path h.client_cert,
          text_lem p.backend_tls_client_key_path h.client_key,
          text_lem p.backend_tls_server_ca_cert_path h.server_ca_cert,
          text_lem p.dns_override h.dns_override,
          ttl_lem p.dns_cache_ttl_seconds h.dns_cache_ttl,
          auth_mode_lem p.auth_mode,
        )
        refl

  -- The loops, over values each of which comes back.
  convertible-map :
      {A B : Type 0} (f : A → Result Error B) (g : B → A) (P : B → Type 0)
      → ((x : B) → P x → f (g x) ≡ ok x)
      → (xs : List B) → All P xs
      → convertible f (map g xs) ≡ xs
  convertible-map f g P back [] h = refl
  convertible-map f g P back (x ∷ xs) (hx, hxs) =
      rw (back x hx, convertible-map f g P back xs hxs) refl

  convert_all-map :
      {A B : Type 0} (f : A → Result Error B) (g : B → A) (k : B → B) (P : B → Type 0)
      → ((x : B) → P x → f (g x) ≡ ok (k x))
      → (xs : List B) → All P xs
      → convert_all f (map g xs) ≡ ok (map k xs)
  convert_all-map f g k P back [] h = refl
  convert_all-map f g k P back (x ∷ xs) (hx, hxs) =
      rw (back x hx, convert_all-map f g k P back xs hxs) refl

  links_lem :
      (known : List PluginConfig) (plugins : List PluginAssociation)
      → All (IsLinked known) plugins
      → link_ids codec now known (map (λ a. a.plugin_config_id) plugins) ≡ plugins
  links_lem known [] h = refl
  links_lem known (a ∷ plugins) ((bare, pc, found), h) =
      rw (link_ids, found, links_lem known plugins h, ← bare) refl

  linked_lem :
      (known : List PluginConfig) (p : Proxy)
      → IsSentProxy known p
      → linked_proxy codec now known (proxy_to_proto codec p) ≡ ok p
  unfolding proxy_to_proto
  linked_lem known p (fields, linked) =
      rw (proxy_lem p fields, links_lem known p.plugins linked) refl

  -- A configuration whose optional texts are not empty, whose times to live are not 0, whose ports
  -- are below 2^16 and whose associations name one of its plugin configurations and hold no
  -- configuration of their own comes back from a snapshot as it was, with the time that the snapshot
  -- gives, if the formats are read as they were written.
  pub snapshot_to_configuration-entities_of :
      (config : Configuration) (created_at : ℕ)
      → IsSent codec config
      → snapshot_to_configuration codec now (codec.to_rfc3339 created_at) (entities_of codec config)
        ≡ ok (record config { last_updated_at = created_at })
  unfolding snapshot_to_configuration entities_of
  snapshot_to_configuration-entities_of config created_at (proxies, consumers, plugin_configs) =
      rw
        (
          laws.parse-to_rfc3339 created_at,
          convertible-map (plugin_config_try_from codec now) (plugin_config_to_proto codec)
              (IsSentPlugin codec) plugin_config_lem config.plugin_configs plugin_configs,
          convertible-map (consumer_try_from codec now) (consumer_to_proto codec)
              (IsSentConsumer codec) consumer_lem config.consumers consumers,
          convertible-map (linked_proxy codec now config.plugin_configs) (proxy_to_proto codec)
              (IsSentProxy config.plugin_configs) (linked_lem config.plugin_configs) config.proxies
              proxies,
        )
        refl

  -- A configuration that can be expressed in messages is read by `into_configuration` with the same
  -- consumers and plugin configurations, but every proxy comes without its plugins, and the time is
  -- that of the reading.
  pub into_configuration-entities_of :
      (config : Configuration)
      → IsSent codec config
      → into_configuration codec now (entities_of codec config) ≡ ok (stripped now config)
  unfolding into_configuration entities_of
  into_configuration-entities_of config (proxies, consumers, plugin_configs) =
      rw
        (
          convert_all-map (proxy_try_from codec now) (proxy_to_proto codec)
              (λ p. record p { plugins = [] }) (IsSentProxy config.plugin_configs)
              (λ p h. proxy_lem p h.0) config.proxies proxies,
          convert_all-map (consumer_try_from codec now) (consumer_to_proto codec) (λ c. c)
              (IsSentConsumer codec) consumer_lem config.consumers consumers,
          convert_all-map (plugin_config_try_from codec now) (plugin_config_to_proto codec) (λ c. c)
              (IsSentPlugin codec) plugin_config_lem config.plugin_configs plugin_configs,
          map_id config.consumers,
          map_id config.plugin_configs,
        )
        refl

-- ===== src/Grpc/Conversions/Reading.antt =====
-- src/grpc/conversions.rs, the three `try_from`, and what src/grpc/mod.rs (`snapshot_to_configuration`)
-- and src/grpc/config_client.rs (`into_configuration`) make of the messages.
use ferrumgw.Common.{
  ℕ, String, List, [], ◌∷◌, ◌++◌, none, some, Result, ok, err, ◌>>=◌, ◌==◌, string_eq, find,
  if◌then◌else◌,
}
use ferrumgw.Config.{Proxy, Consumer, PluginConfig, PluginAssociation, Configuration}
use ferrumgw.Grpc.Messages.{ProtoProxy, ProtoConsumer, ProtoPluginConfig, Entities}
use ferrumgw.Grpc.Conversions.{
  Codec, protocol_of_proto, auth_mode_of_proto, text_or_none, bytes_or_none, ttl_or_none, as_u16,
}

-- The loop that pushes what it converts and only logs what it cannot.
abbrev pub convertible {ℓ} : {E A B : Type ℓ} → (A → Result E B) → List A → List B
convertible f [] = []
convertible f (x ∷ xs) =
    let rest = convertible f xs in elim (f x) [ ok y ↦ y ∷ rest | err e ↦ rest ]

-- The loop that pushes `x.try_into()?`.
abbrev pub convert_all {ℓ} : {E A B : Type ℓ} → (A → Result E B) → List A → Result E (List B)
convert_all f [] = ok []
convert_all f (x ∷ xs) = let rest = convert_all f xs in do y ← f x; ys ← rest; ok (y ∷ ys)

module _ {Error : Type 0} (codec : Codec Error) (now : ℕ) where
  abbrev pub time_of : String → Result Error ℕ
  time_of s = if s == "" then ok now else codec.parse_from_rfc3339 s

  -- `Proxy::try_from`
  unfoldable pub proxy_try_from : ProtoProxy → Result Error Proxy
  proxy_try_from proto = do
    created_at ← time_of proto.created_at
    updated_at ← time_of proto.updated_at
    ok record {
      id = proto.id;
      name = text_or_none proto.name;
      listen_path = proto.listen_path;
      backend_protocol = protocol_of_proto proto.backend_protocol;
      backend_host = proto.backend_host;
      backend_port = as_u16 proto.backend_port;
      backend_path = bytes_or_none proto.backend_path;
      strip_listen_path = proto.strip_listen_path;
      preserve_host_header = proto.preserve_host_header;
      backend_connect_timeout_ms = proto.backend_connect_timeout_ms;
      backend_read_timeout_ms = proto.backend_read_timeout_ms;
      backend_write_timeout_ms = proto.backend_write_timeout_ms;
      backend_tls_client_cert_path = text_or_none proto.backend_tls_client_cert_path;
      backend_tls_client_key_path = text_or_none proto.backend_tls_client_key_path;
      backend_tls_verify_server_cert = proto.backend_tls_verify_server_cert;
      backend_tls_server_ca_cert_path = text_or_none proto.backend_tls_server_ca_cert_path;
      dns_override = text_or_none proto.dns_override;
      dns_cache_ttl_seconds = ttl_or_none proto.dns_cache_ttl_seconds;
      auth_mode = auth_mode_of_proto proto.auth_mode;
      plugins = [];
      created_at = created_at;
      updated_at = updated_at;
    }

  -- `Consumer::try_from`
  unfoldable pub consumer_try_from : ProtoConsumer → Result Error Consumer
  consumer_try_from proto = do
    created_at ← time_of proto.created_at
    updated_at ← time_of proto.updated_at
    credentials ←
        if proto.credentials == "" then ok [] else codec.credentials_from_str proto.credentials
    ok record {
      id = proto.id;
      username = proto.username;
      custom_id = text_or_none proto.custom_id;
      credentials = credentials;
      created_at = created_at;
      updated_at = updated_at;
    }

  -- `PluginConfig::try_from`
  unfoldable pub plugin_config_try_from : ProtoPluginConfig → Result Error PluginConfig
  plugin_config_try_from proto = do
    created_at ← time_of proto.created_at
    updated_at ← time_of proto.updated_at
    config ← if proto.config == "" then ok "{}" else codec.config_from_str proto.config
    ok record {
      id = proto.id;
      plugin_name = proto.plugin_name;
      config = config;
      scope = codec.scope_of_text proto.scope;
      proxy_id = text_or_none proto.proxy_id;
      enabled = proto.enabled;
      created_at = created_at;
      updated_at = updated_at;
    }

  -- The associations with the plugin configurations that are known.
  abbrev pub link_ids : List PluginConfig → List String → List PluginAssociation
  link_ids known [] = []
  link_ids known (plugin_id ∷ ids) =
      let rest = link_ids known ids in
      elim (find (λ pc. pc.id == plugin_id) known) [
        | none ↦ rest
        | some pc ↦ record { plugin_config_id = plugin_id; embedded_config = none } ∷ rest
      ]

  abbrev pub linked_proxy : List PluginConfig → ProtoProxy → Result Error Proxy
  linked_proxy known proto = do
    proxy ← proxy_try_from proto
    ok record proxy { plugins = proxy.plugins ++ link_ids known proto.plugin_config_ids }

  -- `DataPlaneClient::snapshot_to_configuration`, of a snapshot with this text for `created_at`.
  unfoldable pub snapshot_to_configuration : String → Entities → Result Error Configuration
  snapshot_to_configuration created_at snapshot =
      let known = convertible plugin_config_try_from snapshot.plugin_configs in
      do
        last_updated_at ← codec.parse_from_rfc3339 created_at
        ok record {
          proxies = convertible (linked_proxy known) snapshot.proxies;
          consumers = convertible consumer_try_from snapshot.consumers;
          plugin_configs = known;
          last_updated_at = last_updated_at;
        }

  -- `into_configuration` of a snapshot or a full update.
  unfoldable pub into_configuration : Entities → Result Error Configuration
  into_configuration message = do
    proxies ← convert_all proxy_try_from message.proxies
    consumers ← convert_all consumer_try_from message.consumers
    plugin_configs ← convert_all plugin_config_try_from message.plugin_configs
    ok record {
      proxies = proxies;
      consumers = consumers;
      plugin_configs = plugin_configs;
      last_updated_at = now;
    }

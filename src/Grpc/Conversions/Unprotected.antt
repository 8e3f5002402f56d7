-- ===== src/Grpc/Conversions/Unprotected.antt =====
-- src/grpc/config_client.rs with src/plugins/mod.rs: the plugins that run on a data plane.
use ferrumgw.Common.{
  ℕ, String, ◌≡◌, refl, ap, List, [], ◌∷◌, ◌++◌, Option, Result, ok, err, ◌>>=◌, All, All-imp, IfOk,
  IfOk->>=, IfOk-any,
}
use ferrumgw.Config.{PluginConfig, Proxy, Configuration}
use ferrumgw.Grpc.Messages.{ProtoProxy, Entities}
use ferrumgw.Grpc.Conversions.{Codec}
use ferrumgw.Grpc.Conversions.Reading.{
  convert_all, time_of, proxy_try_from, consumer_try_from, plugin_config_try_from,
  into_configuration,
}
use ferrumgw.Plugins.Pipeline.{get_active_plugins_for_proxy, global_plugins, associated_plugins}

abbrev pub IsBare : Proxy → Type 0
IsBare p = p.plugins ≡ []

IfOk-map :
    {E A : Type 0} (P Q : A → Type 0) (o : Result E A) → ((a : A) → P a → Q a) → IfOk P o → IfOk Q o
IfOk-map P Q (ok a) f h = f a h
IfOk-map P Q (err e) f h = tt

append_nil : {A : Type 0} (xs : List A) → xs ++ [] ≡ xs
append_nil [] = refl
append_nil (x ∷ xs) = ap (λ ys. x ∷ ys) (append_nil xs)

module _ {Error : Type 0} (codec : Codec Error) (now : ℕ) where
  try_from-IsBare : (proto : ProtoProxy) → IfOk IsBare (proxy_try_from codec now proto)
  unfolding proxy_try_from
  try_from-IsBare proto =
      IfOk->>= _ IsBare (time_of codec now proto.created_at) _ (IfOk-any _) λ created _.
        IfOk->>= _ IsBare (time_of codec now proto.updated_at) _ (IfOk-any _) λ updated _. refl

  convert_all-IsBare :
      (protos : List ProtoProxy) → IfOk (All IsBare) (convert_all (proxy_try_from codec now) protos)
  convert_all-IsBare [] = tt
  convert_all-IsBare (proto ∷ protos) =
      IfOk->>= IsBare (All IsBare) (proxy_try_from codec now proto) _ (try_from-IsBare proto)
        λ p bare.
          IfOk->>= (All IsBare) (All IsBare) (convert_all (proxy_try_from codec now) protos) _
            (convert_all-IsBare protos) λ ps all. (bare, all)

  into-IsBare :
      (message : Entities)
      → IfOk (λ config. All IsBare config.proxies) (into_configuration codec now message)
  unfolding into_configuration
  into-IsBare message =
      IfOk->>= (All IsBare) _ (convert_all (proxy_try_from codec now) message.proxies) _
        (convert_all-IsBare message.proxies)
        λ ps bare.
          IfOk->>= _ _ (convert_all (consumer_try_from codec now) message.consumers) _ (IfOk-any _)
            λ cs _.
              IfOk->>= _ _ (convert_all (plugin_config_try_from codec now) message.plugin_configs) _
                (IfOk-any _) λ pcs _. bare

module _ {P Error : Type 0} (create : String → String → Result Error P)
    (database : Option (String → Result Error (Option PluginConfig))) (not_found : Error) where
  -- Only the global plugins are active for the proxy.
  abbrev pub RunsGlobalsOnly : List String → Configuration → Proxy → Type 0
  RunsGlobalsOnly names config p =
      get_active_plugins_for_proxy create database not_found names config p.plugins
      ≡ global_plugins create database not_found names

  ok_globals : (o : Result Error (List P)) → (o >>= λ globals. ok (globals ++ [])) ≡ o
  ok_globals (ok globals) = ap ok (append_nil globals)
  ok_globals (err e) = refl

  pub bare-RunsGlobalsOnly :
      (names : List String) (config : Configuration) (p : Proxy)
      → IsBare p
      → RunsGlobalsOnly names config p
  unfolding get_active_plugins_for_proxy associated_plugins
  bare-RunsGlobalsOnly names config p bare =
      rw bare (ok_globals (global_plugins create database not_found names))

  -- Whatever snapshot or full update a control plane sends: in the configuration that a data plane
  -- reads from it, no proxy runs any but the global plugins.
  pub into_configuration-RunsGlobalsOnly :
      {Failure : Type 0} (codec : Codec Failure) (now : ℕ) (names : List String)
      (message : Entities)
      → IfOk
          (λ config. All (RunsGlobalsOnly names config) config.proxies)
          (into_configuration codec now message)
  into_configuration-RunsGlobalsOnly codec now names message =
      IfOk-map _ _ (into_configuration codec now message)
        (λ config. All-imp IsBare _ (bare-RunsGlobalsOnly names config) config.proxies)
        (into-IsBare codec now message)

-- ===== src/Lib.antt =====
-- A model of ferrumgw, an API gateway in Rust, and theorems about it.
--
-- The program. A request comes to the proxy server, which asks the router (src/proxy/router.rs) for
-- the proxy of its path and gives both to the handler (src/proxy/handler.rs). The handler runs the
-- plugins of the proxy in phases (src/plugins/mod.rs), resolves the backend host in the DNS cache
-- (src/dns/cache.rs), builds the backend path and URI, sends the request and runs the plugins on the
-- response. The configuration (src/config/data_model.rs) is loaded in full or changed by deltas, and
-- is edited through the administration interface (src/admin). It is stored in a database (src/database),
-- and a control plane passes it on to data planes (src/modes/control_plane.rs, src/grpc).
--
-- The files.
--   Common          names of the libraries, Boolean tests, equality, lists, byte strings, results, and
--                   in Common/DashMap the interface of the concurrent map of the crate dashmap
--   Config          data_model.rs: records and enums with the names of the source
--   Config/Delta    `ConfigurationDelta::apply_to` and `is_empty`; a loop over the updated entities is
--                   `upsert_all`, the `retain` is `remove_ids`
--   Config/Env, Config/Env/Reading   config/env_config.rs: `from_env`
--   Config/File     config/file_config.rs and the loading of files in modes/file.rs
--   Config/Paths    `validate_listen_path_uniqueness` of modes/database.rs
--   Plugins/Pipeline        the trait `Plugin`, the runs of the phases, the active plugins
--   Plugins/RateLimiting    rate_limiting/mod.rs: counters per key and window; the test and the record of
--                   overlapping requests are steps in Plugins/RateLimiting/Concurrent
--   Plugins/AccessControl   access_control/mod.rs
--   Plugins/Authentication  the chain that jwt_auth, key_auth and basic_auth share
--   Plugins/RequestTransformer  request_transformer/mod.rs
--   Plugins/Oauth2  oauth2_auth/mod.rs: the settings; Oauth2/Tokens has the cache of tokens,
--                   Oauth2/Introspection and Oauth2/Jwks the two ways to validate a token,
--                   Oauth2/Consumers the search for a consumer, Oauth2/Deciding `authenticate`
--   Dns/Cache       dns/cache.rs: `lookup_with_ttl`, `refresh`, `prefetch`, `stats`, `purge_expired`
--   Dns/WarmUp      dns/mod.rs: `warm_up_dns_cache`
--   Modes/DataPlane modes/data_plane.rs: the loop of reconnections and what a connection leaves
--   Modes/ControlPlane      the polling task of modes/control_plane.rs with the updates it pushes
--   Modes/File      modes/file.rs: the reload on SIGHUP
--   Modes/Polling   the polling task of modes/database.rs, a step relation over its two timers
--   Proxy/Router    router.rs: `rebuild_route_tree`, `route`, `construct_backend_path`
--   Proxy/Handler   handler.rs: `handle`, one function for what follows each step
--   Proxy/Server    proxy/mod.rs: `handle_request`, the composition of router and handler
--   Admin/Gate      admin/mod.rs: `handle_request`, `authenticate_request`
--   Admin/Api       responses, and what a handler leaves behind
--   Admin/Proxies, Admin/Consumers, Admin/Consumers/Credentials   the handlers of routes/proxies.rs and
--                   routes/consumers.rs; Admin/Consumers/Hashing   `hash_credential`
--   Admin/PluginConfigs     the handlers of routes/plugins.rs
--   Admin/Pagination        pagination.rs
--   Admin/Routing           admin/mod.rs: `route_request`
--   Grpc/Messages, Grpc/Conversions, Grpc/Conversions/Reading   grpc/conversions.rs, and the reading of
--                   snapshots in grpc/mod.rs and grpc/config_client.rs
--   Grpc/ControlPlane       the module `grpc` of modes/control_plane.rs; Grpc/ControlPlane/Watching has
--                   its events as a step relation
--   Database/Sqlite         `SqliteClient` of database/sqlite.rs: the tables as lists of rows, with the times in
--                   Database/Sqlite/Stamps, the writes in its children Proxies, Consumers and
--                   PluginConfigs, what is read in Loading, and sequences of writes in Writes
--   Database/Postgres       database/postgres.rs with migrations/postgres, laid out alike
--   Tests           concrete values, and the theorems at them
-- The other children of a file hold its theorems.
--
-- Conventions. State is passed explicitly: a function takes the state and returns the new one. A time
-- is a number of milliseconds and an argument where the source reads the clock. A `u32` or `usize`
-- wraps around where the source does not check. A panic and a call that never returns are values. All
-- loops are structural recursion, so there is no fuel.
--
-- Interfaces. The crates dashmap, matchit, hyper, bcrypt and the tokio resolver are parameters: records
-- of operations, with laws where a theorem needs them (Common/DashMap). The database client is a record of operations on a state of the database. The
-- extraction and the check of credentials are parameters of Plugins/Authentication.
--
-- Not modelled: sockets, TLS, HTTP/3 and WebSocket forwarding; the transport of gRPC and generated code;
-- `ConfigServiceImpl` and `DataPlaneClient` of grpc/mod.rs, which no mode starts; the client for MySQL
-- and the dispatch of database/mod.rs, which calls functions that do not exist; the transformer of
-- responses and the logging plugins; metrics. They are input and output,
-- repeat what is modelled, or are left for an extension.
pub mod Common
pub mod Config
pub mod Plugins
pub mod Dns
pub mod Modes
pub mod Proxy
pub mod Admin
pub mod Grpc
pub mod Database
pub mod Tests

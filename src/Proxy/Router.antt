-- ===== src/Proxy/Router.antt =====
-- src/proxy/router.rs: the route tree and the path that is sent to the backend.
-- The radix tree is the crate `matchit`, which is not part of the repository: its type and its two
-- operations are parameters. An insertion that is refused leaves the tree as it was.
pub mod Paths
pub mod Routes
use ferrumgw.Common.{
  ℕ, suc, Bytes, String, Bool, true, false, ◌||◌, List, [], ◌∷◌, ◌++◌, Option, none, some, ltb,
  length, is_empty, find, starts_with_byte, ends_with_byte, slice_from, ◌==◌, string_eq,
  if◌then◌else◌,
}
use ferrumgw.Config.{Proxy, Configuration}

-- The path under which a proxy is registered: it is made to end with `*`.
unfoldable pub route_path : Bytes → Bytes
route_path path =
    if ends_with_byte b'*' path
    then path
    else if ends_with_byte b'/' path
    then path ++ (b'*' ∷ [])
    else path ++ (b'/' ∷ b'*' ∷ [])

-- `matchit::Router<String>`
pub record RouteTree : Type 1 where
  pub Tree : Type 0
  pub empty : Tree
  pub insert : Tree → Bytes → String → Option Tree
  pub at : Tree → Bytes → Option String

module _ (M : RouteTree) where
  open M use {Tree}

  abbrev pub inserted : Option Tree → Tree → ℕ → Tree × ℕ
  inserted (some tree) old count = (tree, suc count)
  inserted none old count = (old, count)

  -- The loop over the proxies: the new tree, and the number of routes in it.
  unfoldable pub add_routes : List Proxy → Tree × ℕ → Tree × ℕ
  add_routes [] (tree, count) = (tree, count)
  add_routes (p ∷ ps) (tree, count) =
      add_routes ps (inserted (M.insert tree (route_path p.listen_path) p.id) tree count)

  -- `rebuild_route_tree`
  unfoldable pub rebuild_route_tree : Configuration → Tree × ℕ
  rebuild_route_tree config = add_routes config.proxies (M.empty, 0)

  abbrev pub proxy_of : Configuration → Option String → Option Proxy
  proxy_of config none = none
  proxy_of config (some proxy_id) = find (λ p. p.id == proxy_id) config.proxies

  -- `route`: the tree may be older than the configuration.
  unfoldable pub route : Tree → Configuration → Bytes → Option Proxy
  route tree config path = proxy_of config (M.at tree path)

abbrev pub backend_path_of : Option Bytes → Bytes
backend_path_of none = []
backend_path_of (some path) = path

-- The three ways in which `construct_backend_path` puts a path behind the backend path.
unfoldable pub join_paths : Bytes → Bytes → Bytes
join_paths backend_path path =
    if starts_with_byte b'/' path || ends_with_byte b'/' backend_path
    then backend_path ++ path
    else if is_empty path
    then backend_path
    else backend_path ++ (b'/' ∷ path)

-- What follows the listen path, by length alone; `none` is the panic of the slice.
unfoldable pub remaining_path : Bytes → Bytes → Option Bytes
remaining_path incoming_path listen_path =
    if ltb (length listen_path) (length incoming_path)
    then slice_from (length listen_path) incoming_path
    else some []

-- The flag `strip_listen_path` chooses what is forwarded.
abbrev pub forwarded : Proxy → Bytes → Bytes → Bytes
forwarded proxy incoming_path remaining =
    if proxy.strip_listen_path
    then join_paths (backend_path_of proxy.backend_path) remaining
    else join_paths (backend_path_of proxy.backend_path) incoming_path

abbrev join_remaining : Proxy → Bytes → Option Bytes → Option Bytes
join_remaining proxy incoming_path none = none
join_remaining proxy incoming_path (some remaining) = some (forwarded proxy incoming_path remaining)

-- `construct_backend_path`; the remaining path is sliced also where it is not used.
unfoldable pub construct_backend_path : Bytes → Proxy → Option Bytes
construct_backend_path incoming_path proxy =
    join_remaining proxy incoming_path (remaining_path incoming_path proxy.listen_path)

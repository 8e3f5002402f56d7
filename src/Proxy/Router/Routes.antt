-- ===== src/Proxy/Router/Routes.antt =====
-- src/proxy/router.rs, `rebuild_route_tree` and `route`: what is registered, and what a request can reach.
use ferrumgw.Common.{
  ℕ, Bytes, String, ◌≡◌, refl, true, List, [], ◌∷◌, ◌++◌, none, arith, ends_with_byte, string_eq,
}
use ferrumgw.Config.{Proxy, Configuration}
use ferrumgw.Proxy.Router.{route_path, RouteTree, add_routes, rebuild_route_tree, route}

ends_with-append :
    (b c : ℕ) (s t : Bytes) → ends_with_byte b (s ++ (c ∷ t)) ≡ ends_with_byte b (c ∷ t)
ends_with-append b c [] t = refl
ends_with-append b c (x ∷ []) t = refl
ends_with-append b c (x ∷ y ∷ s) t = ends_with-append b c (y ∷ s) t

ends_with-route_path : (path : Bytes) → ends_with_byte b'*' (route_path path) ≡ true
unfolding route_path
ends_with-route_path path =
    ground (arith, ends_with-append b'*' b'*' path [], ends_with-append b'*' b'/' path (b'*' ∷ []))

module _ (M : RouteTree) where
  open M use {Tree}

  refused_routes :
      (ps : List Proxy) (tree : Tree) (n : ℕ)
      → ((t : Tree) (r : Bytes) (id : String)
          → ends_with_byte b'*' r ≡ true
          → M.insert t r id ≡ none)
      → add_routes M ps (tree, n) ≡ (tree, n)
  unfolding add_routes
  refused_routes [] tree n refuses = refl
  refused_routes (p ∷ ps) tree n refuses =
      rw (refuses tree (route_path p.listen_path) p.id (ends_with-route_path p.listen_path))
        (refused_routes ps tree n refuses)

  -- If the tree refuses every route that ends with a bare `*`, a catch-all without a name, as matchit 0.7
  -- does, then the rebuilt tree has no route for any configuration, and a request whose path the empty
  -- tree does not match finds no proxy.
  pub no_route_without_name :
      (config : Configuration) (path : Bytes)
      → ((t : Tree) (r : Bytes) (id : String)
          → ends_with_byte b'*' r ≡ true
          → M.insert t r id ≡ none)
      → M.at M.empty path ≡ none
      → (rebuild_route_tree M config ≡ (M.empty, 0))
        × (route M (rebuild_route_tree M config).0 config path ≡ none)
  unfolding route rebuild_route_tree
  no_route_without_name config path refuses unmatched =
      let empty = refused_routes config.proxies M.empty 0 refuses in (empty, rw (empty, unmatched))

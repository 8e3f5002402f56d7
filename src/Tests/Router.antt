-- ===== src/Tests/Router.antt =====
-- The theorems about the router, at concrete values.
use ferrumgw.Common.{
  ◌≡◌, refl, String, Bytes, ascii, List, [], ◌∷◌, Option, some, none, if◌then◌else◌, bytes_eq, Bool,
  true, false, ◌&&◌, nat_beq, ends_with_byte,
}
use ferrumgw.Proxy.Router.{RouteTree, rebuild_route_tree, route}
use ferrumgw.Proxy.Router.Routes.{no_route_without_name}
use ferrumgw.Tests.Samples.{served}

-- A tree of routes as a list, of which the newest that matches counts.
abbrev matches : Bytes → Bytes → Bool
matches [] [] = true
matches [] (x ∷ path) = false
matches (b ∷ r) [] = false
matches (b ∷ r) (x ∷ path) = if nat_beq b b'*' then true else nat_beq b x && matches r path

abbrev newest : List (Bytes × String) → Bytes → Option String
newest [] path = none
newest ((r, id) ∷ rest) path = if matches r path then some id else newest rest path

-- A tree that refuses a catch-all without a name.
abbrev strict_tree : RouteTree
strict_tree = record {
  Tree = List (Bytes × String);
  empty = [];
  insert = λ tree r id. if ends_with_byte b'*' r then none else some ((r, id) ∷ tree);
  at = newest;
}

no_route_without_name_example :
    (rebuild_route_tree strict_tree served ≡ (strict_tree.empty, 0))
    × (route strict_tree (rebuild_route_tree strict_tree served).0 served (ascii "/users/7") ≡ none)
no_route_without_name_example =
    no_route_without_name strict_tree served (ascii "/users/7") (λ tree r id h. rw h refl) refl

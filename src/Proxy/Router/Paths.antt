-- ===== src/Proxy/Router/Paths.antt =====
-- `construct_backend_path`: what is sent to the backend, and when it panics.
use ferrumgw.Common.{
  ℕ, suc, Bytes, ◌≡◌, refl, sym, ap, ◌∙◌, true, false, ◌||◌, [], ◌∷◌, ◌++◌, some, arith, length,
  length-append, is_empty, starts_with_byte, ends_with_byte, slice_from, is_continuation,
  if◌then◌else◌,
}
use mathlib.Core.List.{append-nil, append_assoc}
use ferrumgw.Config.{Proxy}
use ferrumgw.Proxy.Router.{backend_path_of, join_paths, remaining_path, construct_backend_path}

-- A slice may start here: the bytes are empty or do not start inside a character.
abbrev pub AtBoundary : Bytes → Type 0
AtBoundary [] = Unit
AtBoundary (b ∷ rest) = is_continuation b ≡ false

slice_behind :
    (b : ℕ) (front rest : Bytes)
    → AtBoundary rest
    → slice_from (suc (length front)) (b ∷ (front ++ rest)) ≡ some rest
slice_behind b [] [] h = refl
slice_behind b [] (c ∷ rest) h = rw h
slice_behind b (c ∷ front) rest h = slice_behind c front rest h

slice_from-append :
    (listen rest : Bytes)
    → AtBoundary rest
    → slice_from (length listen) (listen ++ rest) ≡ some rest
slice_from-append [] rest h = refl
slice_from-append (c ∷ listen) rest h = slice_behind c listen rest h

remaining_path-append :
    (listen rest : Bytes) → AtBoundary rest → remaining_path (listen ++ rest) listen ≡ some rest
unfolding remaining_path
remaining_path-append listen [] h = ground (arith, length-append listen [])
remaining_path-append listen (b ∷ rest) h =
    ground (arith, length-append listen (b ∷ rest), slice_from-append listen (b ∷ rest) h)

-- The slash that is put between a backend path and what follows.
abbrev pub separator : Bytes → Bytes → Bytes
separator backend_path path =
    if starts_with_byte b'/' path || ends_with_byte b'/' backend_path || is_empty path
    then []
    else b'/' ∷ []

append-empty : (a b : Bytes) → is_empty b ≡ true → a ≡ a ++ b
append-empty a [] h = sym (append-nil a)
append-empty a (x ∷ b) h = cc

join_paths_lem : (a b : Bytes) → join_paths a b ≡ a ++ (separator a b ++ b)
unfolding join_paths
join_paths_lem a b = ground (arith, append-empty a b)

-- For a request path that begins with the listen path and with a slash, and that is not cut inside a
-- character, the backend gets the backend path followed by the rest of the request path, where the
-- listen path is stripped, or by the whole request path. A slash is put before the rest only where
-- the rest is not empty and neither side has one.
pub construct_backend_path_lem :
    (proxy : Proxy) (rest : Bytes)
    → AtBoundary rest
    → starts_with_byte b'/' (proxy.listen_path ++ rest) ≡ true
    → construct_backend_path (proxy.listen_path ++ rest) proxy
      ≡ some (
          backend_path_of proxy.backend_path
          ++ (if proxy.strip_listen_path
              then separator (backend_path_of proxy.backend_path) rest ++ rest
              else proxy.listen_path ++ rest))
unfolding construct_backend_path
construct_backend_path_lem proxy rest h slash = ground (
  arith,
  remaining_path-append proxy.listen_path rest h,
  join_paths_lem (backend_path_of proxy.backend_path) rest,
  join_paths_lem (backend_path_of proxy.backend_path) (proxy.listen_path ++ rest),
)

-- Where the backend path ends with a slash and the rest of the request path begins with one, the path
-- that is sent has two slashes in a row.
pub double_slash :
    (proxy : Proxy) (front rest : Bytes)
    → proxy.strip_listen_path ≡ true
    → proxy.backend_path ≡ some (front ++ (b'/' ∷ []))
    → starts_with_byte b'/' (proxy.listen_path ++ (b'/' ∷ rest)) ≡ true
    → construct_backend_path (proxy.listen_path ++ (b'/' ∷ rest)) proxy
      ≡ some (front ++ (b'/' ∷ b'/' ∷ rest))
double_slash proxy front rest strips backend slash =
    construct_backend_path_lem proxy (b'/' ∷ rest) refl slash
    ∙ rw (strips, backend) (ap some (append_assoc front (b'/' ∷ []) (b'/' ∷ rest)))

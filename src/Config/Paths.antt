-- ===== src/Config/Paths.antt =====
-- src/modes/database.rs and src/modes/file.rs, `validate_listen_path_uniqueness`: the test that a
-- configuration passes before it is served after a full load.
use ferrumgw.Common.{
  String, Bytes, ◌≡◌, ◌≢◌, refl, ◌↔◌, Bool, false, true, List, [], ◌∷◌, some, arith, ◌==◌, bytes_eq,
  string_eq, ==_iff, any, contains, if◌then◌else◌, Result, ok, err,
}
use ferrumgw.Config.{Proxy, Configuration}
use ferrumgw.Config.Delta.Lookup.{find_id}

pub data PathError : Type 0 where
  duplicate_listen_path : Bytes → PathError

-- The loop over the proxies; `seen` holds the members of `seen_paths`. The recursive call is
-- structural.
validate_from : List Bytes → List Proxy → Result PathError (Unit {0})
validate_from seen [] = ok tt
validate_from seen (p ∷ ps) =
    let rest = validate_from (p.listen_path ∷ seen) ps in
    if contains seen p.listen_path then err (duplicate_listen_path p.listen_path) else rest

unfoldable pub validate_listen_path_uniqueness : Configuration → Result PathError (Unit {0})
unfolding validate_from
validate_listen_path_uniqueness config = validate_from [] config.proxies

abbrev pub has_path : Bytes → List Proxy → Bool
has_path path = any (λ p. p.listen_path == path)

-- No two proxies listen on the same path.
abbrev pub HasUniquePaths : List Proxy → Type 0
HasUniquePaths [] = Unit
HasUniquePaths (p ∷ ps) = (has_path p.listen_path ps ≡ false) × HasUniquePaths ps

-- No proxy listens on a path that was seen.
abbrev IsFresh : List Bytes → List Proxy → Type 0
IsFresh seen [] = Unit
IsFresh seen (p ∷ ps) = (contains seen p.listen_path ≡ false) × IsFresh seen ps

IsFresh-cons :
    (path : Bytes) (seen : List Bytes) (ps : List Proxy)
    → IsFresh (path ∷ seen) ps ↔ ((has_path path ps ≡ false) × IsFresh seen ps)
IsFresh-cons path seen [] = ground arith
IsFresh-cons path seen (p ∷ ps) =
    ground (arith, ==_iff path p.listen_path, ==_iff p.listen_path path, IsFresh-cons path seen ps)

validate_from_iff :
    (seen : List Bytes) (ps : List Proxy)
    → (validate_from seen ps ≡ ok tt) ↔ (IsFresh seen ps × HasUniquePaths ps)
unfolding validate_from
validate_from_iff seen [] = ground arith
validate_from_iff seen (p ∷ ps) =
    ground (arith, validate_from_iff (p.listen_path ∷ seen) ps, IsFresh-cons p.listen_path seen ps)

IsFresh-nil : (ps : List Proxy) → IsFresh [] ps
IsFresh-nil [] = tt
IsFresh-nil (p ∷ ps) = (refl, IsFresh-nil ps)

-- Validation succeeds exactly when no two proxies of the configuration listen on the same path.
pub validate_iff :
    (config : Configuration)
    → (validate_listen_path_uniqueness config ≡ ok tt) ↔ HasUniquePaths config.proxies
unfolding validate_listen_path_uniqueness
validate_iff config =
    let (to, from) = validate_from_iff [] config.proxies in
    (λ e. (to e).1, λ u. from (IsFresh-nil config.proxies, u))

has_path-find :
    (k : String) (ps : List Proxy) (q : Proxy)
    → find_id (λ p. p.id) k ps ≡ some q
    → has_path q.listen_path ps ≡ true
has_path-find k [] q h = ground arith
has_path-find k (p ∷ ps) q h =
    ground (arith, has_path-find k ps q, ==_iff p.listen_path p.listen_path)

-- Two ids under which proxies with one path are found.
pub not_unique_of_find :
    (k j : String) (ps : List Proxy) (p q : Proxy)
    → find_id (λ r. r.id) k ps ≡ some p
    → find_id (λ r. r.id) j ps ≡ some q
    → k ≢ j
    → p.listen_path ≡ q.listen_path
    → ¬ HasUniquePaths ps
not_unique_of_find k j [] p q h g ne same u = ground arith
not_unique_of_find k j (r ∷ ps) p q h g ne same (fresh, u) = ground (
  arith,
  ==_iff r.id k,
  ==_iff r.id j,
  has_path-find k ps p,
  has_path-find j ps q,
  not_unique_of_find k j ps p q,
)

-- ===== src/Admin/Proxies/UniquePaths.antt =====
-- src/admin/routes/proxies.rs: listen paths stay different under the changes of a write.
use ferrumgw.Common.{
  String, Bytes, ◌≡◌, refl, Bool, false, not, ◌&&◌, List, [], ◌∷◌, any, retain, ◌==◌, ==_iff,
  string_eq, bytes_eq, arith,
}
use ferrumgw.Config.{Proxy}
use ferrumgw.Config.Delta.{upsert}
use ferrumgw.Config.Delta.Lookup.{IsKeyed}
use ferrumgw.Config.Paths.{has_path, HasUniquePaths}

pub has_path-keyed :
    (id : String) (path : Bytes) (ps : List Proxy)
    → any (λ y. y.id == id) ps ≡ false
    → any (λ p. not (p.id == id) && p.listen_path == path) ps ≡ false
    → has_path path ps ≡ false
has_path-keyed id path [] keyed other = refl
has_path-keyed id path (p ∷ ps) keyed other = ground (arith, has_path-keyed id path ps)

has_path-upsert :
    (path : Bytes) (p : Proxy) (ps : List Proxy)
    → has_path path ps ≡ false
    → (p.listen_path == path) ≡ false
    → has_path path (upsert (λ x. x.id) p ps) ≡ false
unfolding upsert
has_path-upsert path p [] h other = ground arith
has_path-upsert path p (x ∷ xs) h other = ground (arith, has_path-upsert path p xs)

pub upsert-HasUniquePaths :
    (p : Proxy) (ps : List Proxy)
    → IsKeyed (λ x. x.id) ps
    → HasUniquePaths ps
    → any (λ q. not (q.id == p.id) && q.listen_path == p.listen_path) ps ≡ false
    → HasUniquePaths (upsert (λ x. x.id) p ps)
unfolding upsert
upsert-HasUniquePaths p [] k u other = ground arith
upsert-HasUniquePaths p (x ∷ xs) (k, ks) (u, us) other = ground (
  arith,
  ==_iff x.id p.id,
  ==_iff x.listen_path p.listen_path,
  ==_iff p.listen_path x.listen_path,
  has_path-keyed p.id p.listen_path xs,
  has_path-upsert x.listen_path p xs,
  upsert-HasUniquePaths p xs ks us,
)

has_path-retain :
    (path : Bytes) (f : Proxy → Bool) (ps : List Proxy)
    → has_path path ps ≡ false
    → has_path path (retain f ps) ≡ false
has_path-retain path f [] h = refl
has_path-retain path f (p ∷ ps) h = ground (arith, has_path-retain path f ps)

pub retain-HasUniquePaths :
    (f : Proxy → Bool) (ps : List Proxy) → HasUniquePaths ps → HasUniquePaths (retain f ps)
retain-HasUniquePaths f [] u = tt
retain-HasUniquePaths f (p ∷ ps) (u, us) =
    ground (arith, retain-HasUniquePaths f ps us, has_path-retain p.listen_path f ps u)

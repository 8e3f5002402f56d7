-- ===== src/Dns/Cache.antt =====
-- src/dns/cache.rs: the DNS cache.
-- Times and durations are in milliseconds; `now` is `Instant::now()` at the call, `later` the same
-- after the network was asked. The map is the interface of Common/DashMap; a reference that `get` or
-- `iter` returns locks the part of the map that its key stands in, and a `remove` of that key under
-- such a reference waits for ever: `blocks`. `lookup_host` is tokio's and returns the addresses.
pub mod Laws
use ferrumgw.Common.{
  ℕ, suc, ◌+◌, ◌-◌, ◌*◌, String, Bool, true, false, not, Option, none, some, List, [], ◌∷◌, Result,
  ok, err, ltb, leb, length, ◌==◌, string_eq, if◌then◌else◌,
}
use ferrumgw.Common.DashMap.{DashMap}

pub record CacheEntry : Type 0 where
  pub ip : String
  pub created_at : ℕ
  pub ttl : ℕ

abbrev pub new_entry : ℕ → String → ℕ → CacheEntry
new_entry now ip ttl = record { ip = ip; created_at = now; ttl = ttl }

abbrev pub elapsed : ℕ → CacheEntry → ℕ
elapsed now entry = now - entry.created_at

-- `CacheEntry::is_expired`
unfoldable pub is_expired : ℕ → CacheEntry → Bool
is_expired now entry = leb entry.ttl (elapsed now entry)

unfoldable pub time_until_expiry : ℕ → CacheEntry → ℕ
time_until_expiry now entry = if is_expired now entry then 0 else entry.ttl - elapsed now entry

-- `HashMap::get` on the static overrides, of which the first of a name counts.
abbrev pub override_of : List (String × String) → String → Option String
override_of [] hostname = none
override_of ((name, ip) ∷ rest) hostname =
    if name == hostname then some ip else override_of rest hostname

pub record DnsCacheStats : Type 0 where
  pub total_entries : ℕ
  pub active_entries : ℕ
  pub expired_entries : ℕ
  pub override_entries : ℕ

-- A call that returns, with the map it leaves, or one that waits for ever.
pub data Outcome (M A : Type 0) : Type 0 where
  returns : A → M → Outcome M A
  blocks : Outcome M A

-- `perform_lookup`: the first address, or an error where there is none.
unfoldable pub perform_lookup :
    {Error : Type 0} (lookup_host : String → Result Error (List String))
    → Error
    → String
    → Result Error String
perform_lookup lookup_host no_address hostname = elim (lookup_host hostname) [
  | ok [] ↦ err no_address
  | ok (ip ∷ _) ↦ ok ip
  | err e ↦ err e
]

module _ (D : DashMap CacheEntry) where
  open D use {Map}

  pub record DnsCache : Type 0 where
    pub cache : Map
    pub default_ttl : ℕ
    pub overrides : List (String × String)

  -- `DnsCache::new`
  unfoldable pub new_cache : ℕ → List (String × String) → DnsCache
  new_cache default_ttl_seconds overrides = record {
    cache = D.empty;
    default_ttl = default_ttl_seconds * 1000;
    overrides = overrides;
  }

  abbrev pub with_cache : DnsCache → Map → DnsCache
  with_cache c m = record { cache = m; default_ttl = c.default_ttl; overrides = c.overrides }

  unfoldable pub clear : DnsCache → DnsCache
  clear c = with_cache c D.empty

  module _ {Error : Type 0} (lookup_host : String → Result Error (List String))
      (no_address : Error) where
    -- The end of `lookup_with_ttl`: the address is stored with the time at which it arrived.
    abbrev pub store_result :
        Map → String → ℕ → ℕ → Result Error String → Outcome Map (Result Error String)
    store_result m hostname ttl later (ok ip) =
        returns (ok ip) (D.insert m hostname (new_entry later ip ttl))
    store_result m hostname ttl later (err e) = returns (err e) m

    -- With the entry of the map: an expired one is removed under the reference to it.
    unfoldable pub from_cache :
        Map → String → ℕ → ℕ → ℕ → Option CacheEntry → Outcome Map (Result Error String)
    from_cache m hostname ttl now later none =
        store_result m hostname ttl later (perform_lookup lookup_host no_address hostname)
    from_cache m hostname ttl now later (some entry) =
        if is_expired now entry then blocks else returns (ok entry.ip) m

    unfoldable pub or_override :
        Map → String → ℕ → ℕ → ℕ → Option String → Outcome Map (Result Error String)
    or_override m hostname ttl now later (some ip) = returns (ok ip) m
    or_override m hostname ttl now later none =
        from_cache m hostname ttl now later (D.get m hostname)

    unfoldable pub lookup_with_ttl :
        DnsCache → String → ℕ → ℕ → ℕ → Outcome Map (Result Error String)
    lookup_with_ttl c hostname ttl now later =
        or_override c.cache hostname ttl now later (override_of c.overrides hostname)

    unfoldable pub lookup : DnsCache → String → ℕ → ℕ → Outcome Map (Result Error String)
    lookup c hostname now later = lookup_with_ttl c hostname c.default_ttl now later

    unfoldable pub refresh : DnsCache → String → ℕ → ℕ → Outcome Map (Result Error String)
    refresh c hostname now later =
        lookup (with_cache c (D.remove c.cache hostname)) hostname now later

  -- `prefetch`, up to the task that it spawns: the address of an entry that expires within a minute.
  abbrev pub soon_expired : ℕ → Option CacheEntry → Option String
  soon_expired now none = none
  soon_expired now (some entry) =
      if is_expired now entry
      then none
      else if ltb (time_until_expiry now entry) 60000
      then some entry.ip
      else none

  abbrev pub unless_overridden : ℕ → Option CacheEntry → Option String → Option String
  unless_overridden now entry (some ip) = none
  unless_overridden now entry none = soon_expired now entry

  unfoldable pub prefetch : DnsCache → String → ℕ → Option String
  prefetch c hostname now =
      unless_overridden now (D.get c.cache hostname) (override_of c.overrides hostname)

  -- The spawned task, whose errors are logged only.
  unfoldable pub prefetch_task :
      {Error : Type 0} → Map → String → ℕ → ℕ → Result Error (List String) → Map
  prefetch_task m hostname ttl later (ok []) = m
  prefetch_task m hostname ttl later (ok (ip ∷ _)) =
      D.insert m hostname (new_entry later ip (ttl * 1000))
  prefetch_task m hostname ttl later (err e) = m

-- `stats` and `purge_expired` over what `iter()` yields.
unfoldable pub count_expired : ℕ → List (String × CacheEntry) → ℕ × ℕ
count_expired now [] = (0, 0)
count_expired now ((name, entry) ∷ rest) =
    let (active, expired) = count_expired now rest in
    if is_expired now entry then (active, suc expired) else (suc active, expired)

unfoldable pub stats : ℕ → List (String × CacheEntry) → List (String × String) → DnsCacheStats
stats now entries overrides =
    let (active, expired) = count_expired now entries in
    record {
      total_entries = length entries;
      active_entries = active;
      expired_entries = expired;
      override_entries = length overrides;
    }

-- The loop stops at the first entry that it removes, under the reference of the iteration.
unfoldable pub purge_expired : ℕ → List (String × CacheEntry) → Option ℕ
purge_expired now [] = some 0
purge_expired now ((name, entry) ∷ rest) =
    let purged = purge_expired now rest in if is_expired now entry then none else purged

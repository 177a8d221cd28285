-- ===== src/ReadCache.antt =====
-- src/whmcs/readCache.ts: the cache of idempotent reads. The text that names a call's parameters
-- (`buildCacheKey`, through JSON.stringify) is a parameter, as is a value's copy its value.
use whmcs_mcp_server.Prelude.{
  ℕ, ◌+◌, ◌-◌, String, Bool, true, false, not, ◌&&◌, ◌||◌, Option, none, some, List, [], ◌∷◌,
  length, any, includes, ltb, leb, if◌then◌else◌,
}
use whmcs_mcp_server.Prelude.JsMap
use whmcs_mcp_server.Prelude.JsMap.{JsMap}
use whmcs_mcp_server.Prelude.JsNumber.{JsNumber, finite}
use whmcs_mcp_server.Prelude.{pos, suc, zero}
pub mod Answers
pub mod Size
mod Tests

abbrev pub read_cache_max_entries : ℕ
read_cache_max_entries = 256

pub record CacheEntry {ℓ} (V : Type ℓ) : Type ℓ where
  pub value : V
  pub expires_at : ℕ
  pub tags : List String

pub record ReadCacheMetrics : Type 0 where
  pub hits : ℕ
  pub misses : ℕ
  pub expirations : ℕ
  pub evictions : ℕ
  pub invalidations : ℕ

pub record ReadCache {ℓ} (V : Type ℓ) : Type ℓ where
  pub ttl_ms : ℕ
  pub cacheable_actions : List String
  pub max_entries : ℕ
  pub store : JsMap (CacheEntry V)
  pub counters : ReadCacheMetrics

-- What a text key of a call is made of: `buildCacheKey`.
abbrev pub KeyOf {ℓ} : Type ℓ → Type ℓ
KeyOf P = String → P → String

-- A time to live that is not finite, or not positive, is 0.
abbrev ttl_of : JsNumber → ℕ
ttl_of (finite (pos n)) = n
ttl_of _ = 0

abbrev entries_of : Option ℕ → ℕ
entries_of none = read_cache_max_entries
entries_of (some zero) = read_cache_max_entries
entries_of (some (suc n)) = suc n

unfoldable pub new_read_cache {ℓ} : {V : Type ℓ} → JsNumber → List String → Option ℕ → ReadCache V
new_read_cache ttl_ms cacheable_actions max_entries = record {
  ttl_ms = ttl_of ttl_ms;
  cacheable_actions = cacheable_actions;
  max_entries = entries_of max_entries;
  store = [];
  counters = record { hits = 0; misses = 0; expirations = 0; evictions = 0; invalidations = 0 };
}

abbrev missed : ReadCacheMetrics → ReadCacheMetrics
missed n = record n { misses = suc n.misses }

abbrev expired : ReadCacheMetrics → ReadCacheMetrics
expired n = record n { misses = suc n.misses; expirations = suc n.expirations }

module _ {ℓ} {V : Type ℓ} where
  unfoldable pub is_cacheable : String → ReadCache V → Bool
  is_cacheable action c = ltb 0 c.ttl_ms && includes c.cacheable_actions action

  abbrev pub enabled : ReadCache V → Bool
  enabled c = ltb 0 c.ttl_ms

  abbrev answer : Option (CacheEntry V) → String → ℕ → ReadCache V → Option V × ReadCache V
  answer none key now c = (none, record c { counters = missed c.counters })
  answer (some entry) key now c =
      if leb entry.expires_at now
      then (none, record c { store = JsMap.delete key c.store; counters = expired c.counters })
      else (
        some entry.value,
        record c { counters = record (c.counters) { hits = suc c.counters.hits } },
      )

  -- `invalidateTags`: how many entries are removed, and the cache without them.
  abbrev pub is_tagged : List String → CacheEntry V → Bool
  is_tagged tags entry = any (includes tags) entry.tags

  unfoldable pub invalidate_tags : List String → ReadCache V → ℕ × ReadCache V
  invalidate_tags [] c = (0, c)
  invalidate_tags (tag ∷ tags) c =
      let store = JsMap.keep (λ entry. not (is_tagged (tag ∷ tags) entry)) c.store in
      let removed = length c.store - length store in
      (
        removed,
        record c {
          store = store;
          counters = record (c.counters) { invalidations = c.counters.invalidations + removed };
        },
      )

  unfoldable pub clear : ReadCache V → ReadCache V
  clear c = record c {
    store = [];
    counters = record (c.counters) { invalidations = c.counters.invalidations + length c.store };
  }

module _ {ℓ κ} {V : Type ℓ} {P : Type κ} (build_cache_key : KeyOf P) where
  unfoldable pub get : String → P → ℕ → ReadCache V → Option V × ReadCache V
  unfolding is_cacheable
  get action params now c =
      let key = build_cache_key action params in
      if is_cacheable action c then answer (JsMap.get key c.store) key now c else (none, c)

  -- `set`: the key is deleted first, so that its entry becomes the youngest.
  unfoldable pub set : String → P → V → List String → ℕ → ReadCache V → ReadCache V
  unfolding is_cacheable
  set action params value tags now c =
      let key = build_cache_key action params in
      let entry : CacheEntry V = record {
        value = value;
        expires_at = now + c.ttl_ms;
        tags = tags;
      } in
      let grown = JsMap.set key entry (JsMap.delete key c.store) in
      let store = JsMap.evict c.max_entries grown in
      if is_cacheable action c
      then record c {
        store = store;
        counters = record (c.counters) {
          evictions = c.counters.evictions + (length grown - length store);
        };
      }
      else c

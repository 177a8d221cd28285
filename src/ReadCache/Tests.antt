-- ===== src/ReadCache/Tests.antt =====
-- A read cache of two entries.
use whmcs_mcp_server.Prelude.{
  ℕ, ◌+◌, String, ◌≡◌, refl, not, none, some, [], ◌∷◌, arith, ltb, if◌then◌else◌,
}
use whmcs_mcp_server.Prelude.JsMap
use whmcs_mcp_server.Prelude.JsMap.{guarded}
use whmcs_mcp_server.ReadCache.{
  ReadCache, get, set, invalidate_tags, is_cacheable, is_tagged, KeyOf,
}
use whmcs_mcp_server.ReadCache.Answers.{get-set_same, get-invalidate_tags, value_at}
use whmcs_mcp_server.ReadCache.Size.{IsBounded, stores, perform, perform-IsBounded}

-- Calls without parameters but one text.
abbrev joined : KeyOf String
joined action params = Prim.Native.String.◌++◌ action params

abbrev cache : ReadCache ℕ
cache = record {
  ttl_ms = 100;
  cacheable_actions = "GetProducts" ∷ [];
  max_entries = 2;
  store =
      ("GetProducts1", record { value = 1; expires_at = 50; tags = "product" ∷ [] })
      ∷ ("GetProducts2", record { value = 2; expires_at = 90; tags = [] })
      ∷ [];
  counters = record { hits = 0; misses = 0; expirations = 0; evictions = 0; invalidations = 0 };
}

get-set_same_example :
    (get joined "GetProducts" "3" 120 (set joined "GetProducts" "3" 3 [] 40 cache)).0
    ≡ (if ltb 120 (40 + 100) then some 3 else none)
get-set_same_example =
    get-set_same joined "GetProducts" "3" 3 [] 40 120 cache (unfold is_cacheable in refl)
      (omega arith)

distinct_keys : JsMap.HasUniqueKeys cache.store
unfolding JsMap.get
distinct_keys = (refl, (refl, tt))

get-invalidate_tags_example :
    (get joined "GetProducts" "1" 20 (invalidate_tags ("product" ∷ []) cache).1).0 ≡ (
      if is_cacheable "GetProducts" cache
      then value_at 20 (
          guarded
            (λ entry. not (is_tagged ("product" ∷ []) entry))
            (JsMap.get "GetProducts1" cache.store))
      else none)
get-invalidate_tags_example =
    get-invalidate_tags joined ("product" ∷ []) "GetProducts" "1" 20 cache distinct_keys

abbrev off : ReadCache ℕ
off = record cache { ttl_ms = 0 }

perform-IsBounded_example : IsBounded (perform joined (stores "GetProducts" "3" 3 [] 40) cache)
perform-IsBounded_example =
    perform-IsBounded joined (stores "GetProducts" "3" 3 [] 40) cache
      (record { bounded = omega arith; unique = distinct_keys })

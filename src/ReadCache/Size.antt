-- ===== src/ReadCache/Size.antt =====
-- The size of the read cache, and its keys.
use whmcs_mcp_server.Prelude.{
  ℕ, ◌≤◌, String, not, List, [], ◌∷◌, length, arith, Bool-cases, inl, inr, ◌+◌,
}
use whmcs_mcp_server.Prelude.JsMap
use whmcs_mcp_server.Prelude.JsMap.{
  JsMap, HasUniqueKeys, length-delete, length-evict, length-keep, set-HasUniqueKeys,
  delete-HasUniqueKeys, evict-HasUniqueKeys, keep-HasUniqueKeys,
}
use whmcs_mcp_server.ReadCache.{
  ReadCache, CacheEntry, KeyOf, is_tagged, is_cacheable, get, set, invalidate_tags, clear,
}

pub record IsBounded {ℓ} {V : Type ℓ} (c : ReadCache V) : Type ℓ where
  pub bounded : length c.store ≤ c.max_entries
  pub unique : HasUniqueKeys c.store

-- The operations of the cache on behalf of its callers.
pub data Operation {ℓ κ} (V : Type ℓ) (P : Type κ) : Type (ℓ ⊔ κ) where
  reads : String → P → ℕ → Operation V P
  stores : String → P → V → List String → ℕ → Operation V P
  invalidates : List String → Operation V P
  clears : Operation V P

module _ {ℓ κ} {V : Type ℓ} {P : Type κ} (key : KeyOf P) where
  unfoldable pub perform : Operation V P → ReadCache V → ReadCache V
  perform (reads action params now) c = (get key action params now c).1
  perform (stores action params value tags now) c = set key action params value tags now c
  perform (invalidates tags) c = (invalidate_tags tags c).1
  perform clears c = clear c

  get-IsBounded :
      (action : String) (params : P) (now : ℕ) (c : ReadCache V)
      → IsBounded c
      → IsBounded (get key action params now c).1
  unfolding get
  get-IsBounded action params now c i = record {
    bounded = ground (arith, i.bounded, length-delete (key action params) c.store);
    unique = ground (arith, i.unique, delete-HasUniqueKeys (key action params) c.store i.unique);
  }

  -- Every operation keeps the number of entries within the cache's limit, and the keys distinct.
  pub perform-IsBounded :
      (o : Operation V P) (c : ReadCache V) → IsBounded c → IsBounded (perform o c)
  unfolding perform set invalidate_tags clear
  perform-IsBounded (reads action params now) c i = get-IsBounded action params now c i
  perform-IsBounded (stores action params value tags now) c i =
      elim (Bool-cases (is_cacheable action c)) [
        | inl on ↦
            let entry : CacheEntry V = record {
              value = value;
              expires_at = now + c.ttl_ms;
              tags = tags;
            } in
            let k = key action params in
            let grown = JsMap.set k entry (JsMap.delete k c.store) in
            rw on (record {
              bounded = length-evict c.max_entries grown;
              unique = evict-HasUniqueKeys c.max_entries grown (
                  set-HasUniqueKeys k entry (JsMap.delete k c.store)
                    (delete-HasUniqueKeys k c.store i.unique));
            })
        | inr off ↦ rw off i
      ]
  perform-IsBounded (invalidates []) c i = i
  perform-IsBounded (invalidates (tag ∷ tags)) c i = record {
    bounded =
        omega (arith, i.bounded, length-keep (λ entry. not (is_tagged (tag ∷ tags) entry)) c.store);
    unique = keep-HasUniqueKeys (λ entry. not (is_tagged (tag ∷ tags) entry)) c.store i.unique;
  }
  perform-IsBounded clears c i = record { bounded = omega arith; unique = tt }

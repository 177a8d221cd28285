-- ===== src/ReadCache/Answers.antt =====
-- What the read cache answers.
use whmcs_mcp_server.Prelude.{
  ℕ, ◌+◌, ◌≤◌, String, ◌≡◌, refl, sym, ap, Bool, true, false, not, Option, none, some, List, [],
  ◌∷◌, ◌++◌, length, arith, if◌then◌else◌, ltb, leb, eq_iff, eq_refl, any, includes,
}
use whmcs_mcp_server.Prelude.JsMap
use whmcs_mcp_server.Prelude.JsMap.{JsMap, HasUniqueKeys, guarded, get-set, get-delete, get-keep}
use whmcs_mcp_server.ReadCache.{
  ReadCache, CacheEntry, KeyOf, is_cacheable, is_tagged, get, set, invalidate_tags,
}

module _ {ℓ} {V : Type ℓ} where
  -- A key set after it is deleted is the last of the map.
  set-delete :
      (k : String) (v : V) (m : JsMap V) → JsMap.get k m ≡ none → JsMap.set k v m ≡ m ++ (k, v) ∷ []
  unfolding JsMap.set JsMap.get
  set-delete k v [] h = refl
  set-delete k v ((j, w) ∷ m) h = ground (arith, set-delete k v m)

  get-last :
      (k : String) (v : V) (m : JsMap V)
      → JsMap.get k m ≡ none
      → JsMap.get k (m ++ (k, v) ∷ []) ≡ some v
  unfolding JsMap.get
  get-last k v [] h = ground (arith, eq_refl k)
  get-last k v ((j, w) ∷ m) h = ground (arith, get-last k v m)

  length-last : (m : JsMap V) (e : String × V) → 1 ≤ length (m ++ e ∷ [])
  length-last [] e = omega arith
  length-last (d ∷ m) e = omega arith

  -- The youngest entry is not evicted.
  get-evict-last :
      (most : ℕ) (k : String) (v : V) (m : JsMap V)
      → 1 ≤ most
      → JsMap.get k m ≡ none
      → JsMap.get k (JsMap.evict most (m ++ (k, v) ∷ [])) ≡ some v
  unfolding JsMap.get JsMap.evict
  get-evict-last most k v [] p h = ground (arith, eq_refl k)
  get-evict-last most k v ((j, w) ∷ m) p h =
      ground (arith, get-evict-last most k v m p, get-last k v m)

any-includes_none : (ts : List String) → any (includes []) ts ≡ false
any-includes_none [] = refl
any-includes_none (t ∷ ts) = any-includes_none ts

guarded-untagged {ℓ} :
    {V : Type ℓ} (o : Option (CacheEntry V)) → guarded (λ entry. not (is_tagged [] entry)) o ≡ o
guarded-untagged none = refl
guarded-untagged (some entry) = rw (any-includes_none entry.tags) refl

-- What an entry answers at a time.
abbrev pub value_at {ℓ} : {V : Type ℓ} → ℕ → Option (CacheEntry V) → Option V
value_at now none = none
value_at now (some entry) = if leb entry.expires_at now then none else some entry.value

module _ {ℓ κ} {V : Type ℓ} {P : Type κ} (key : KeyOf P) where
  get-value_at :
      (action : String) (params : P) (now : ℕ) (c : ReadCache V)
      → (get key action params now c).0 ≡ (
          if is_cacheable action c
          then value_at now (JsMap.get (key action params) c.store)
          else none)
  unfolding get
  get-value_at action params now c = ground arith

  -- In a cache with room for an entry, what is stored of a cacheable action is answered until its
  -- time to live is over, whatever had to be evicted.
  pub get-set_same :
      (action : String) (params : P) (value : V) (tags : List String) (now later : ℕ)
      (c : ReadCache V)
      → is_cacheable action c ≡ true
      → 1 ≤ c.max_entries
      → (get key action params later (set key action params value tags now c)).0
        ≡ (if ltb later (now + c.ttl_ms) then some value else none)
  unfolding set is_cacheable
  get-set_same action params value tags now later c h p =
      let k = key action params in
      let entry : CacheEntry V = record {
        value = value;
        expires_at = now + c.ttl_ms;
        tags = tags;
      } in
      let fresh : JsMap.get k (JsMap.delete k c.store) ≡ none =
        ground (arith, eq_refl k, get-delete k k c.store) in
      simp get-value_at (
        rw h (
          rw (set-delete k entry (JsMap.delete k c.store) fresh) (
            rw (get-evict-last c.max_entries k entry (JsMap.delete k c.store) p fresh)
              (ground arith))))

  -- Reading does not change what is read at the same time or later.
  pub get-get :
      (a b : String) (p q : P) (now later : ℕ) (c : ReadCache V)
      → now ≤ later
      → (get key b q later (get key a p now c).1).0 ≡ (get key b q later c).0
  unfolding get
  get-get a b p q now later c h =
      ground (arith, eq_iff (key a p) (key b q), get-delete (key a p) (key b q) c.store)

  -- In a cache with distinct keys, after an invalidation, an entry with one of the tags is a miss
  -- and every other entry is answered as before.
  pub get-invalidate_tags :
      (tags : List String) (action : String) (params : P) (now : ℕ) (c : ReadCache V)
      → HasUniqueKeys c.store
      → (get key action params now (invalidate_tags tags c).1).0 ≡ (
          if is_cacheable action c
          then value_at now (
              guarded (λ entry. not (is_tagged tags entry)) (JsMap.get (key action params) c.store))
          else none)
  unfolding invalidate_tags is_cacheable
  get-invalidate_tags [] action params now c u = simp get-value_at (
      ap (λ o. if is_cacheable action c then value_at now o else none)
        (sym (guarded-untagged (JsMap.get (key action params) c.store))))
  get-invalidate_tags (tag ∷ tags) action params now c u =
      let keeps : CacheEntry V → Bool = λ entry. not (is_tagged (tag ∷ tags) entry) in
      let kept = get-keep keeps (key action params) c.store u in
      simp get-value_at (ap (λ o. if is_cacheable action c then value_at now o else none) kept)

  -- With a time to live of zero a look-up misses and changes nothing, its counters included, and a
  -- store is without effect.
  pub disabled :
      (action : String) (params : P) (value : V) (tags : List String) (now : ℕ) (c : ReadCache V)
      → c.ttl_ms ≡ 0
      → (get key action params now c ≡ (none, c)) × (set key action params value tags now c ≡ c)
  unfolding get set is_cacheable
  disabled action params value tags now c h = ground arith

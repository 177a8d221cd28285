-- ===== src/RateLimiter/Cache.antt =====
-- What the idempotency cache answers, and how large it grows.
use whmcs_mcp_server.Prelude.{
  ℕ, zero, suc, ◌+◌, ◌-◌, ◌≤◌, String, ◌≡◌, refl, false, not, Option, none, some, [], ◌∷◌, length,
  arith, if◌then◌else◌, Bool-cases, inl, inr, ltb, leb, eq_iff, eq_refl,
}
use whmcs_mcp_server.Prelude.JsMap
use whmcs_mcp_server.Prelude.JsMap.{JsMap, HasUniqueKeys, get-set, get-delete, get-keep}
use whmcs_mcp_server.RateLimiter.{
  RateLimiter, CachedResult, remove_oldest, cache_result, get_cached_result, cleanup_cache,
}

leb-false : (a b : ℕ) → leb a b ≡ false → suc b ≤ a
leb-false a b h = ground arith

module _ {ℓ} {R : Type ℓ} where
  -- The cached value while its window lasts, its last instant included.
  abbrev pub within : (window now : ℕ) → Option (CachedResult R) → Option R
  within window now none = none
  within window now (some cached) =
      if ltb (cached.timestamp + window) now then none else some cached.result

  get_cached_result-within :
      (key : String) (now : ℕ) (l : RateLimiter R)
      → (get_cached_result key now l).0
        ≡ within l.idempotency_window_ms now (JsMap.get key l.idempotency_cache)
  unfolding get_cached_result
  get_cached_result-within key now l = ground arith

  -- A cached result is answered up to the end of its window, the last instant included, and not
  -- after it.
  pub get_cached_result-cache_result :
      (key : String) (result : R) (now later : ℕ) (l : RateLimiter R)
      → (get_cached_result key later (cache_result key result now l)).0
        ≡ (if ltb (now + l.idempotency_window_ms) later then none else some result)
  unfolding cache_result
  get_cached_result-cache_result key result now later l =
      simp (get_cached_result-within, get-set) (ground (arith, eq_refl key))

  -- The periodic cleanup changes no answer from that time on, when the keys are distinct.
  pub get_cached_result-cleanup_cache :
      (key : String) (now later : ℕ) (l : RateLimiter R)
      → HasUniqueKeys l.idempotency_cache
      → now ≤ later
      → (get_cached_result key later (cleanup_cache now l)).0 ≡ (get_cached_result key later l).0
  unfolding cleanup_cache
  get_cached_result-cleanup_cache key now later l u h = simp get_cached_result-within (
      ground (
        arith,
        get-keep (λ cached. not (ltb (cached.timestamp + l.idempotency_window_ms) now)) key
            l.idempotency_cache u,
      ))

  get-remove_oldest-none :
      (n : ℕ) (k : String) (m : JsMap (CachedResult R))
      → JsMap.get k m ≡ none
      → JsMap.get k (remove_oldest n m) ≡ none
  unfolding remove_oldest JsMap.get
  get-remove_oldest-none zero k m h = h
  get-remove_oldest-none (suc n) k [] h = refl
  get-remove_oldest-none (suc n) k ((j, v) ∷ m) h = ground (arith, get-remove_oldest-none n k m)

  remove_oldest-none-length :
      (n : ℕ) (m : JsMap (CachedResult R))
      → JsMap.get "" m ≡ none
      → length (remove_oldest n m) ≡ length m - n
  unfolding remove_oldest JsMap.get
  remove_oldest-none-length zero m h = omega arith
  remove_oldest-none-length (suc n) [] h = omega arith
  remove_oldest-none-length (suc n) ((j, v) ∷ m) h = ground (arith, remove_oldest-none-length n m)

  length-remove_oldest :
      (n : ℕ) (m : JsMap (CachedResult R))
      → HasUniqueKeys m
      → length (remove_oldest n m) ≤ suc (length m - n)
  unfolding remove_oldest
  length-remove_oldest zero m u = omega arith
  length-remove_oldest (suc n) [] u = omega arith
  length-remove_oldest (suc n) ((j, v) ∷ m) u =
      ground (arith, eq_iff j "", remove_oldest-none-length n m, length-remove_oldest n m u.1)

  length-set :
      (k : String) (v : CachedResult R) (m : JsMap (CachedResult R))
      → length (JsMap.set k v m) ≤ suc (length m)
  unfolding JsMap.set
  length-set k v [] = omega arith
  length-set k v ((j, w) ∷ m) = ground (arith, length-set k v m)

  length-removed :
      (n : ℕ) (m : JsMap (CachedResult R))
      → HasUniqueKeys m
      → length m ≤ 1000
      → 2 ≤ n
      → length (remove_oldest n m) ≤ 999
  length-removed n m u h k = omega (arith, length-remove_oldest n m u)

  -- Caching a result leaves at most `MAX_CACHE_SIZE` results in the cache, when there were no more
  -- before and the keys are distinct.
  pub length-cache_result :
      (key : String) (result : R) (now : ℕ) (l : RateLimiter R)
      → HasUniqueKeys l.idempotency_cache
      → length l.idempotency_cache ≤ 1000
      → length (cache_result key result now l).idempotency_cache ≤ 1000
  unfolding cache_result
  length-cache_result key result now l u h =
      elim (Bool-cases (leb 1000 (length l.idempotency_cache))) [
        | inl full ↦ rw full (
            omega (
              arith,
              length-set key (record { result = result; timestamp = now })
                  (remove_oldest 100 l.idempotency_cache),
              length-removed 100 l.idempotency_cache u h (omega arith),
            ))
        | inr room ↦ rw room (
            omega (
              arith,
              length-set key (record { result = result; timestamp = now }) l.idempotency_cache,
              leb-false 1000 (length l.idempotency_cache) room,
            ))
      ]

-- ===== src/RateLimiter/Tests.antt =====
-- A limiter of two calls a second, and its cache.
use whmcs_mcp_server.Prelude.{
  ℕ, ◌+◌, ◌*◌, ◌-◌, ◌≤◌, pos, String, ◌≡◌, refl, Bool, true, false, Option, none, some, List, [],
  ◌∷◌, length, arith, ltb, if◌then◌else◌,
}
use whmcs_mcp_server.Prelude.JsMap
use whmcs_mcp_server.RateLimiter.{
  RateLimiter, new_rate_limiter, cache_result, get_cached_result, cleanup_cache,
}
use whmcs_mcp_server.RateLimiter.Bucket.{consume_all, consume_all-bounded}
use whmcs_mcp_server.RateLimiter.Cache.{get_cached_result-cache_result, length-cache_result}

abbrev limiter : RateLimiter String
limiter = record {
  tokens = pos 2000;
  last_refill = 0;
  max_tokens = 2;
  refill_rate = 2;
  idempotency_cache = ("add_credit:7:0", record { result = "done"; timestamp = 10 }) ∷ [];
  idempotency_window_ms = 60000;
}

-- Of four calls in the first half second, three are granted.
three_granted : (consume_all (0 ∷ 1 ∷ 2 ∷ 500 ∷ []) limiter).0 ≡ 3
unfolding consume_all whmcs_mcp_server.RateLimiter.refill whmcs_mcp_server.Prelude.◌+ℤ◌
    whmcs_mcp_server.Prelude.◌-ℤ◌
three_granted = refl

consume_all-bounded_example :
    1000 * (consume_all (0 ∷ 1 ∷ 2 ∷ 500 ∷ []) limiter).0 ≤ 1000 * 2 + 2 * (500 - 0)
consume_all-bounded_example =
    consume_all-bounded (0 ∷ 1 ∷ 2 ∷ 500 ∷ []) 500 limiter
      (omega arith, (omega arith, (omega arith, (omega arith, omega arith)))) (omega arith)
      (omega arith)

cache_result_example :
    (get_cached_result "k" 70 (cache_result "k" "done" 60 limiter)).0
    ≡ (if ltb (60 + 60000) 70 then none else some "done")
cache_result_example = get_cached_result-cache_result "k" "done" 60 70 limiter

length-cache_result_example : length (cache_result "k" "done" 60 limiter).idempotency_cache ≤ 1000
length-cache_result_example =
    length-cache_result "k" "done" 60 limiter (unfold JsMap.get in (refl, tt)) (omega arith)

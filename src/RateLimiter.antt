-- ===== src/RateLimiter.antt =====
-- src/rateLimiter.ts: the token bucket, in thousandths of a token, and the idempotency cache. A
-- time is in milliseconds and is an argument where the code reads the clock, which may step back.
-- Rounding of the binary number format is not modelled, nor are the timer and the logger.
use whmcs_mcp_server.Prelude.{
  ◌⊕◌, ℕ, zero, suc, ◌+◌, ◌-◌, ◌*◌, ◌/◌, ℤ, pos, negsuc, ◌+ℤ◌, ◌-ℤ◌, ltb_ℤ, String, Bool, true,
  false, not, Option, none, some, List, [], ◌∷◌, length, includes, str_eq, ltb, leb, if◌then◌else◌,
}
use whmcs_mcp_server.Prelude.JsMap
use whmcs_mcp_server.Prelude.JsMap.{JsMap}
pub mod Bucket
pub mod Cache
mod Tests

abbrev pub default_idempotency_window_ms : ℕ
default_idempotency_window_ms = 60000

abbrev pub max_cache_size : ℕ
max_cache_size = 1000

-- `Math.ceil(MAX_CACHE_SIZE * 0.1)`
abbrev pub entries_to_remove : ℕ
entries_to_remove = 100

unfoldable pub is_high_risk_tool : String → Bool
is_high_risk_tool tool =
    includes
      ("capture_payment" ∷ "record_refund" ∷ "mark_invoice_paid" ∷ "add_credit" ∷ "accept_order"
        ∷ "terminate_service" ∷ [])
      tool

pub record CachedResult {ℓ} (R : Type ℓ) : Type ℓ where
  pub result : R
  pub timestamp : ℕ

pub record RateLimiter {ℓ} (R : Type ℓ) : Type ℓ where
  -- In thousandths; a clock that steps back can make it negative.
  pub tokens : ℤ
  pub last_refill : ℕ
  pub max_tokens : ℕ
  pub refill_rate : ℕ
  pub idempotency_cache : JsMap (CachedResult R)
  pub idempotency_window_ms : ℕ

unfoldable pub new_rate_limiter {ℓ} : {R : Type ℓ} → (limit now : ℕ) → RateLimiter R
new_rate_limiter limit now = record {
  tokens = pos (1000 * limit);
  last_refill = now;
  max_tokens = limit;
  refill_rate = limit;
  idempotency_cache = [];
  idempotency_window_ms = default_idempotency_window_ms;
}

abbrev min_ℤ : ℤ → ℤ → ℤ
min_ℤ a b = if ltb_ℤ b a then b else a

-- Milliseconds times tokens per second are thousandths of a token.
abbrev refilled : (tokens : ℤ) (last now rate : ℕ) → ℤ
refilled tokens last now rate =
    if leb last now
    then tokens +ℤ pos (rate * (now - last))
    else tokens -ℤ pos (rate * (last - now))

-- `Math.floor`, of thousandths to whole tokens
abbrev floor_thousandths : ℤ → ℤ
floor_thousandths (pos n) = pos (n / 1000)
floor_thousandths (negsuc n) = negsuc (n / 1000)

module _ {ℓ} {R : Type ℓ} where
  unfoldable pub refill : ℕ → RateLimiter R → RateLimiter R
  refill now l = record l {
    tokens = min_ℤ (pos (1000 * l.max_tokens)) (refilled l.tokens l.last_refill now l.refill_rate);
    last_refill = now;
  }

  unfoldable pub try_consume : ℕ → RateLimiter R → Bool × RateLimiter R
  try_consume now given =
      let l = refill now given in
      if ltb_ℤ l.tokens (pos 1000)
      then (false, l)
      else (true, record l { tokens = l.tokens -ℤ pos 1000 })

  unfoldable pub would_exceed : ℕ → RateLimiter R → Bool × RateLimiter R
  would_exceed now given = let l = refill now given in (ltb_ℤ l.tokens (pos 1000), l)

  unfoldable pub get_available_tokens : ℕ → RateLimiter R → ℤ × RateLimiter R
  get_available_tokens now given = let l = refill now given in (floor_thousandths l.tokens, l)

  unfoldable pub generate_idempotency_key :
      (ℕ → String) → String → String → ℕ → RateLimiter R → String
  generate_idempotency_key show tool_name primary_id now l =
      tool_name ⊕ ":" ⊕ primary_id ⊕ ":" ⊕ show (now / l.idempotency_window_ms)

  -- `cleanup`, at shutdown
  unfoldable pub cleanup : RateLimiter R → RateLimiter R
  cleanup l = record l { idempotency_cache = [] }

  abbrev answer_cached :
      Option (CachedResult R) → String → ℕ → RateLimiter R → Option R × RateLimiter R
  answer_cached none key now l = (none, l)
  answer_cached (some cached) key now l =
      if ltb (cached.timestamp + l.idempotency_window_ms) now
      then (none, record l { idempotency_cache = JsMap.delete key l.idempotency_cache })
      else (some cached.result, l)

  unfoldable pub get_cached_result : String → ℕ → RateLimiter R → Option R × RateLimiter R
  get_cached_result key now l = answer_cached (JsMap.get key l.idempotency_cache) key now l

  -- The eviction loop: `n` steps of the iterator, the empty key being left in place.
  unfoldable pub remove_oldest : ℕ → JsMap (CachedResult R) → JsMap (CachedResult R)
  remove_oldest zero cache = cache
  remove_oldest (suc n) [] = []
  remove_oldest (suc n) ((key, cached) ∷ cache) =
      let rest = remove_oldest n cache in if str_eq key "" then (key, cached) ∷ rest else rest

  unfoldable pub cache_result : String → R → ℕ → RateLimiter R → RateLimiter R
  unfolding remove_oldest
  cache_result key result now l =
      let room =
        if leb max_cache_size (length l.idempotency_cache)
        then remove_oldest entries_to_remove l.idempotency_cache
        else l.idempotency_cache in
      record l {
        idempotency_cache = JsMap.set key (record { result = result; timestamp = now }) room;
      }

  unfoldable pub cleanup_cache : ℕ → RateLimiter R → RateLimiter R
  cleanup_cache now l = record l {
    idempotency_cache =
        JsMap.keep (λ cached. not (ltb (cached.timestamp + l.idempotency_window_ms) now))
          l.idempotency_cache;
  }

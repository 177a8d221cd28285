-- ===== src/RateLimiter/Bucket.antt =====
-- How many calls the token bucket grants.
use whmcs_mcp_server.Prelude.{
  ℕ, ◌+◌, ◌-◌, ◌*◌, ◌≤◌, ℤ, pos, ◌+ℤ◌, ◌≤ℤ◌, int_laws, ◌≡◌, Bool, true, false, List, [], ◌∷◌, sym,
  ap, ◌∙◌, arith,
}
use native.Mathlib.Nat.{mul-add}
use whmcs_mcp_server.RateLimiter.{RateLimiter, refill, try_consume}

-- Calls at the given times, in order: how many are granted, and the limiter after them.
abbrev pub one_if : Bool → ℕ
one_if true = 1
one_if false = 0

-- The times do not step back, from the last refill on, and are not after `end`.
abbrev pub IsOrdered : ℕ → List ℕ → ℕ → Type 0
IsOrdered start [] end = start ≤ end
IsOrdered start (now ∷ times) end = (start ≤ now) × IsOrdered now times end

IsOrdered-le : (start : ℕ) (times : List ℕ) (end : ℕ) → IsOrdered start times end → start ≤ end
IsOrdered-le start [] end o = o
IsOrdered-le start (now ∷ times) end (h, o) = omega (arith, h, IsOrdered-le now times end o)

refills-add : (rate a b c : ℕ) → a ≤ b → b ≤ c → rate * (b - a) + rate * (c - b) ≡ rate * (c - a)
refills-add rate a b c h k =
    sym (mul-add rate (b - a) (c - b)) ∙ ap (λ d. rate * d) (omega (arith, h, k))

pays-trans :
    (granted more : ℕ) (t t' : ℤ) (x y : ℕ)
    → (pos (1000 * granted) +ℤ t') ≤ℤ (t +ℤ pos x)
    → pos (1000 * more) ≤ℤ (t' +ℤ pos y)
    → pos (1000 * (granted + more)) ≤ℤ (t +ℤ pos (x + y))
pays-trans granted more t t' x y p q = grind int_laws

bound :
    (granted size : ℕ) (t : ℤ) (x : ℕ)
    → pos (1000 * granted) ≤ℤ (t +ℤ pos x)
    → t ≤ℤ pos (1000 * size)
    → 1000 * granted ≤ 1000 * size + x
bound granted size t x p q = grind int_laws

module _ {ℓ} {R : Type ℓ} where
  unfoldable pub consume_all : List ℕ → RateLimiter R → ℕ × RateLimiter R
  unfolding try_consume
  consume_all [] l = (0, l)
  consume_all (now ∷ times) l =
      let (granted, l') = try_consume now l in
      let (more, l'') = consume_all times l' in (one_if granted + more, l'')

  -- A call pays a thousand for what it is granted, out of what was there and what was refilled.
  try_consume-pays :
      (now : ℕ) (l : RateLimiter R)
      → l.last_refill ≤ now
      → (pos (1000 * one_if (try_consume now l).0) +ℤ (try_consume now l).1.tokens)
        ≤ℤ (l.tokens +ℤ pos (l.refill_rate * (now - l.last_refill)))
  unfolding try_consume refill
  try_consume-pays now l h = grind int_laws

  try_consume-in_credit :
      (now : ℕ) (l : RateLimiter R)
      → l.last_refill ≤ now
      → pos 0 ≤ℤ l.tokens
      → pos 0 ≤ℤ (try_consume now l).1.tokens
  unfolding try_consume refill
  try_consume-in_credit now l h c = grind int_laws

  try_consume-kept :
      (now : ℕ) (l : RateLimiter R)
      → ((try_consume now l).1.last_refill ≡ now)
        × ((try_consume now l).1.refill_rate ≡ l.refill_rate)
  unfolding try_consume refill
  try_consume-kept now l = ground arith

  consume_all-pays :
      (times : List ℕ) (end : ℕ) (l : RateLimiter R)
      → IsOrdered l.last_refill times end
      → pos 0 ≤ℤ l.tokens
      → pos (1000 * (consume_all times l).0)
        ≤ℤ (l.tokens +ℤ pos (l.refill_rate * (end - l.last_refill)))
  unfolding consume_all
  consume_all-pays [] end l o c = grind int_laws
  consume_all-pays (now ∷ times) end l (h, o) c =
      let l' = (try_consume now l).1 in
      let (last, rate) = try_consume-kept now l in
      let rest = consume_all-pays times end l' (rw last o) (try_consume-in_credit now l h c) in
      rw (sym (refills-add l.refill_rate l.last_refill now end h (IsOrdered-le now times end o))) (
        pays-trans (one_if (try_consume now l).0) (consume_all times l').0 l.tokens l'.tokens
          (l.refill_rate * (now - l.last_refill)) (l.refill_rate * (end - now))
          (try_consume-pays now l h) (rw (last, rate) at rest))

  -- From a bucket that is not overdrawn and holds at most its size, for calls at times that do not
  -- step back: a thousand times the calls granted is at most a thousand times the bucket's size
  -- plus the refill rate times the milliseconds up to the end.
  pub consume_all-bounded :
      (times : List ℕ) (end : ℕ) (l : RateLimiter R)
      → IsOrdered l.last_refill times end
      → pos 0 ≤ℤ l.tokens
      → l.tokens ≤ℤ pos (1000 * l.max_tokens)
      → 1000 * (consume_all times l).0 ≤ 1000 * l.max_tokens + l.refill_rate * (end - l.last_refill)
  consume_all-bounded times end l o c full = bound _ _ _ _ (consume_all-pays times end l o c) full

-- ===== src/Request/Attempts.antt =====
-- How often a call reaches the transport.
use whmcs_mcp_server.Prelude.{
  ℕ, zero, suc, ◌+◌, ◌-◌, ◌≤◌, ◌≡◌, refl, Bool, true, false, ◌&&◌, ◌||◌, arith, if◌then◌else◌, ltb,
  Bool-cases, inl, inr,
}
use whmcs_mcp_server.Request.Classifier.{ClassifiedWhmcsError, Patterns, classify_whmcs_error}
use whmcs_mcp_server.Request.RetryPolicy.{
  WhmcsRequestEffect, is_read, is_write, read, write, should_retry_read,
}
use whmcs_mcp_server.Request.Pipeline.{
  Dependencies, Posted, decoded, business_error, failed, Request, Result, after_sleep, handle,
  repair_or_retry, go_on, out_of_fuel, Attempts, start, attempt_budget, Turn, done, again, repair,
  retry, turn, loop, execute,
}

-- The turns that may still follow: the ordinary attempts left, and the two repairs.
abbrev one_unless : Bool → ℕ
one_unless true = 0
one_unless false = 1

abbrev left : WhmcsRequestEffect → Attempts → ℕ
left write a = 0
left read a =
    (3 - a.ordinary_attempt) + one_unless a.heal_attempted + one_unless a.connection_reset_attempted

left-start : (effect : WhmcsRequestEffect) → suc (left effect start) ≤ 5
left-start read = omega arith
left-start write = omega arith

posts-most :
    (effect : WhmcsRequestEffect) → suc (left effect start) ≤ (if is_write effect then 1 else 5)
posts-most read = omega arith
posts-most write = omega arith

abbrev pub ran_out {ℓ} : {T : Type ℓ} → Result T → Bool
ran_out out_of_fuel = true
ran_out _ = false

-- A turn that goes on used up one of the `most` turns left, and did not post more than `posts`.
abbrev IsProgress {ℓ κ} :
    {W : Type ℓ} {T : Type κ} → WhmcsRequestEffect → (posts most : ℕ) → Turn W T → Type 0
IsProgress effect posts most (done r a w) = (ran_out r ≡ false) × (a.transport_attempt ≤ posts)
IsProgress effect posts most (again a w) =
    (a.transport_attempt ≤ posts) × (suc (left effect a) ≤ most)

module _ {ℓ κ} {W : Type ℓ} {T : Type κ} (d : Dependencies W T) (patterns : Patterns)
    (q : Request) where
  abbrev Progresses : Attempts → Turn W T → Type 0
  Progresses a t = IsProgress q.effect a.transport_attempt (left q.effect a) t

  after_sleep-IsProgress :
      (effect : WhmcsRequestEffect) (a : Attempts) (s : Bool × W)
      → is_read effect ≡ true
      → ltb a.ordinary_attempt (attempt_budget effect) ≡ true
      → IsProgress effect a.transport_attempt
          (left effect a)
          (after_sleep d patterns q (record a { ordinary_attempt = suc a.ordinary_attempt }) s)
  after_sleep-IsProgress read a (true, w) h k = (omega arith, ground arith)
  after_sleep-IsProgress read a (false, w) h k = ground arith
  after_sleep-IsProgress write a s h k = cc

  retry-IsProgress :
      (c : ClassifiedWhmcsError) (a : Attempts) (w : W) → Progresses a (retry d patterns q c a w)
  unfolding retry should_retry_read
  retry-IsProgress c a w =
      let go =
        should_retry_read c q.effect a.ordinary_attempt (attempt_budget q.effect)
          (is_read q.effect && q.allow_retry) in
      elim (Bool-cases go) [
        | inl goes ↦ rw goes (after_sleep-IsProgress q.effect a _ (ground arith) (ground arith))
        | inr stops ↦ rw stops (refl, omega arith)
      ]

  abbrev RepairProgresses : Attempts → Bool × Attempts × W → Type 0
  RepairProgresses a (true, a', w) =
      (a'.transport_attempt ≤ a.transport_attempt) × (suc (left q.effect a') ≤ left q.effect a)
  RepairProgresses a (false, a', w) =
      (a'.transport_attempt ≤ a.transport_attempt) × (left q.effect a' ≤ left q.effect a)

  repair-RepairProgresses :
      (c : ClassifiedWhmcsError) (a : Attempts) (w : W)
      → RepairProgresses a (repair d patterns q c a w)
  unfolding repair
  repair-RepairProgresses c a w = ground arith

  repair_or_retry-Progresses :
      (c : ClassifiedWhmcsError) (a : Attempts) (r : Bool × Attempts × W)
      → RepairProgresses a r
      → Progresses a (repair_or_retry d patterns q c r)
  repair_or_retry-Progresses c a (true, a', w) h = h
  repair_or_retry-Progresses c a (false, a', w) h =
      weaken (retry d patterns q c a' w) h (retry-IsProgress c a' w)
    where
      weaken :
          (t : Turn W T)
          → (a'.transport_attempt ≤ a.transport_attempt) × (left q.effect a' ≤ left q.effect a)
          → Progresses a' t
          → Progresses a t
      weaken (done r b v) h p = (p.0, omega (arith, h.0, p.1))
      weaken (again b v) h p = (omega (arith, h.0, p.0), omega (arith, h.1, p.1))

  handle-Progresses : (a : Attempts) (p : Posted T × W) → Progresses a (handle d patterns q a p)
  handle-Progresses a (decoded t, w) = (refl, omega arith)
  handle-Progresses a (business_error, w) = (refl, omega arith)
  handle-Progresses a (failed e, w) =
      let c = classify_whmcs_error patterns e in
      elim (Bool-cases (d.aborted w || c.cancelled)) [
        | inl stops ↦ rw stops (refl, omega arith)
        | inr goes ↦ rw goes (
            repair_or_retry-Progresses c a (repair d patterns q c a w)
              (repair-RepairProgresses c a w))
      ]

  -- Posting does not change what is left.
  unstarted :
      (effect : WhmcsRequestEffect) (a : Attempts) (dispatched : Bool) (t : Turn W T)
      → IsProgress effect
          (suc a.transport_attempt)
          (left effect (record a {
            transport_attempt = suc a.transport_attempt;
            mutation_dispatched = dispatched;
          }))
          t
      → IsProgress effect (suc a.transport_attempt) (left effect a) t
  unstarted read a b t p = p
  unstarted write a b t p = p

  turn-IsProgress :
      (a : Attempts) (w : W)
      → IsProgress q.effect (suc a.transport_attempt) (left q.effect a) (turn d patterns q a w)
  unfolding turn
  turn-IsProgress a w = elim (Bool-cases (d.aborted w)) [
    | inl stops ↦ rw stops (refl, omega arith)
    | inr goes ↦ rw goes (
        unstarted q.effect a _ _ (
          handle-Progresses
            (record a {
              transport_attempt = suc a.transport_attempt;
              mutation_dispatched = a.mutation_dispatched || is_write q.effect;
            })
            (d.post w)))
  ]

  -- What a run of the loop shows, with enough fuel for the turns left.
  abbrev Ends : ℕ → Result T × Attempts × W → Type 0
  Ends posts (r, a, w) = (ran_out r ≡ false) × (a.transport_attempt ≤ posts)

  loop-Ends :
      (fuel : ℕ) (a : Attempts) (w : W)
      → suc (left q.effect a) ≤ fuel
      → Ends (a.transport_attempt + suc (left q.effect a)) (loop d patterns q fuel a w)
  unfolding loop
  loop-Ends zero a w h = absurd (omega (arith, h))
  loop-Ends (suc fuel) a w h = go (loop-Ends fuel) (turn d patterns q a w) (turn-IsProgress a w)
    where
      go :
          ((b : Attempts) (v : W)
            → suc (left q.effect b) ≤ fuel
            → Ends (b.transport_attempt + suc (left q.effect b)) (loop d patterns q fuel b v))
          → (t : Turn W T) → IsProgress q.effect (suc a.transport_attempt) (left q.effect a) t
          → Ends
              (a.transport_attempt + suc (left q.effect a))
              (go_on d patterns q (loop d patterns q fuel) t)
      go rest (done r b v) p = (p.0, omega (arith, p.1))
      go rest (again b v) p =
          let (fine, posts) = rest b v (omega (arith, h, p.1)) in
          (fine, omega (arith, p.0, p.1, posts))

  -- Whatever the transport, the clock and the repair do, a call comes to an end (the fuel of
  -- `execute` is enough); a write reaches the transport at most once, and a read at most five
  -- times: three ordinary attempts, and one more for each of the two repairs.
  pub execute-ends :
      (w : W)
      → (ran_out (execute d patterns q w).0 ≡ false)
        × ((execute d patterns q w).1.transport_attempt ≤ (if is_write q.effect then 1 else 5))
  unfolding execute
  execute-ends w =
      let (fine, posts) = loop-Ends 5 start w (left-start q.effect) in
      (fine, omega (arith, posts, posts-most q.effect))

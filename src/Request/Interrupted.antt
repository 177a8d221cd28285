-- ===== src/Request/Interrupted.antt =====
-- What an interrupted write reports.
use whmcs_mcp_server.Prelude.{
  subst, ◌≡◌, refl, Bool, true, false, ◌&&◌, ◌||◌, ltb, Bool-cases, inl, inr,
}
use whmcs_mcp_server.Request.Classifier.{ClassifiedWhmcsError, Patterns, classify_whmcs_error}
use whmcs_mcp_server.Request.RetryPolicy.{is_read, is_write, write, should_retry_read}
use whmcs_mcp_server.Request.Pipeline.{
  Dependencies, Posted, decoded, business_error, failed, Request, Result, interrupted, Attempts,
  start, Turn, done, again, repair, retry, turn, loop, execute, handle, go_on,
}

-- An interruption reports an unknown outcome exactly when a write was posted.
abbrev IsReported {ℓ} : {T : Type ℓ} → Result T → Attempts → Type 0
IsReported (interrupted deadline unknown) a = unknown ≡ ltb 0 a.transport_attempt
IsReported _ a = Unit

-- Such a turn ends the call.
abbrev EndsReported {ℓ κ} : {W : Type ℓ} {T : Type κ} → Turn W T → Type 0
EndsReported (done r a w) = IsReported r a
EndsReported (again a w) = ⊥

module _ {ℓ κ} {W : Type ℓ} {T : Type κ} (d : Dependencies W T) (patterns : Patterns)
    (q : Request) where
  retry-EndsReported :
      (c : ClassifiedWhmcsError) (a : Attempts) (w : W)
      → is_read q.effect ≡ false
      → EndsReported (retry d patterns q c a w)
  unfolding retry should_retry_read
  retry-EndsReported c a w h = rw h tt

  repair-write :
      (c : ClassifiedWhmcsError) (a : Attempts) (w : W)
      → is_read q.effect ≡ false
      → repair d patterns q c a w ≡ (false, a, w)
  unfolding repair
  repair-write c a w h = rw h refl

  handle-EndsReported :
      (a : Attempts) (p : Posted T × W)
      → is_read q.effect ≡ false
      → (is_write q.effect && a.mutation_dispatched) ≡ ltb 0 a.transport_attempt
      → EndsReported (handle d patterns q a p)
  handle-EndsReported a (decoded t, w) h k = tt
  handle-EndsReported a (business_error, w) h k = tt
  handle-EndsReported a (failed e, w) h k =
      let c = classify_whmcs_error patterns e in
      elim (Bool-cases (d.aborted w || c.cancelled)) [
        | inl stops ↦ rw stops k
        | inr goes ↦ rw (goes, repair-write c a w h) (retry-EndsReported c a w h)
      ]

  turn-EndsReported :
      (w : W)
      → is_read q.effect ≡ false
      → is_write q.effect ≡ true
      → EndsReported (turn d patterns q start w)
  unfolding turn
  turn-EndsReported w h k = elim (Bool-cases (d.aborted w)) [
    | inl stops ↦ rw (stops, k) refl
    | inr goes ↦ rw goes (handle-EndsReported _ (d.post w) h (rw k refl))
  ]

  go_on-IsReported :
      (t : Turn W T) (next : Attempts → W → Result T × Attempts × W)
      → EndsReported t
      → IsReported (go_on d patterns q next t).0 (go_on d patterns q next t).1
  go_on-IsReported (done r a w) next e = e
  go_on-IsReported (again a w) next e = absurd e

  -- A write that is interrupted, by its caller or its deadline, reports that its outcome may be
  -- unknown exactly when it had reached the transport.
  pub execute-IsReported :
      (w : W) (deadline unknown : Bool)
      → q.effect ≡ write
      → (execute d patterns q w).0 ≡ interrupted deadline unknown
      → unknown ≡ ltb 0 (execute d patterns q w).1.transport_attempt
  unfolding execute loop
  execute-IsReported w deadline unknown e h =
      subst (λ r. IsReported r (execute d patterns q w).1) h
        (go_on-IsReported (turn d patterns q start w) (loop d patterns q 4)
          (turn-EndsReported w (rw e refl) (rw e refl)))

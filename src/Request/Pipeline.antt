-- ===== src/Request/Pipeline.antt =====
-- src/whmcs/request/pipeline.ts: `WhmcsRequestPipeline.execute`, its loop on fuel. The transport,
-- the abort signal, the sleep and the repair of the IP allowlist are parameters, with a state of
-- their own. Logging, telemetry and the texts of the errors are left out.
use whmcs_mcp_server.Prelude.{
  ℕ, zero, suc, Bool, true, false, not, ◌&&◌, ◌||◌, Option, some, if◌then◌else◌,
}
use whmcs_mcp_server.Request.Classifier.{
  Failure, ClassifiedWhmcsError, ForbiddenKind, invalid_ip, Patterns, classify_whmcs_error, is_403,
}
use whmcs_mcp_server.Request.RetryPolicy.{
  WhmcsRequestEffect, is_read, is_write, read, write, should_retry_read, get_backoff_delay,
  default_read_attempt_budget,
}

-- A post and the decoding of its response.
pub data Posted {ℓ} (T : Type ℓ) : Type ℓ where
  decoded : T → Posted T
  business_error : Posted T
  failed : Failure → Posted T

pub record Dependencies {ℓ κ} (W : Type ℓ) (T : Type κ) : Type (ℓ ⊔ κ) where
  -- `context.signal?.aborted`, and whether by a deadline
  pub aborted : W → Bool
  pub is_deadline : W → Bool
  pub post : W → Posted T × W
  pub reset_connections : W → W
  pub heal : W → Bool × W
  pub jitter : W → ℕ × W
  -- Whether the sleep ended, or was rejected.
  pub sleep : ℕ → W → Bool × W

pub record Request : Type 0 where
  pub effect : WhmcsRequestEffect
  pub allow_retry : Bool
  pub auto_ip_heal : Bool

-- How a call ends. An interrupted one says whether a mutation may have had its effect.
pub data Result {ℓ} (T : Type ℓ) : Type ℓ where
  returned : T → Result T
  business business_raw : Result T
  interrupted : (deadline outcome_unknown : Bool) → Result T
  transport : Option ℕ → Result T
  out_of_fuel : Result T

pub record Attempts : Type 0 where
  pub transport_attempt : ℕ
  pub ordinary_attempt : ℕ
  pub mutation_dispatched : Bool
  pub heal_attempted : Bool
  pub connection_reset_attempted : Bool

abbrev pub start : Attempts
start = record {
  transport_attempt = 0;
  ordinary_attempt = 1;
  mutation_dispatched = false;
  heal_attempted = false;
  connection_reset_attempted = false;
}

abbrev pub attempt_budget : WhmcsRequestEffect → ℕ
attempt_budget read = default_read_attempt_budget
attempt_budget write = 1

abbrev pub is_invalid_ip : Option ForbiddenKind → Bool
is_invalid_ip (some invalid_ip) = true
is_invalid_ip _ = false

-- One turn of the loop ends the call or goes on.
pub data Turn {ℓ κ} (W : Type ℓ) (T : Type κ) : Type (ℓ ⊔ κ) where
  done : Result T → Attempts → W → Turn W T
  again : Attempts → W → Turn W T

module _ {ℓ κ} {W : Type ℓ} {T : Type κ} (d : Dependencies W T) (patterns : Patterns)
    (q : Request) where
  abbrev pub cut : Attempts → W → Turn W T
  cut a w = done (interrupted (d.is_deadline w) (is_write q.effect && a.mutation_dispatched)) a w

  -- The repair of a 403: whether to try again at once.
  unfoldable pub repair : ClassifiedWhmcsError → Attempts → W → Bool × Attempts × W
  repair c a w =
      let bad_ip = is_invalid_ip c.forbidden_kind in
      let (healed, w') = d.heal w in
      if is_read q.effect && is_403 c.status_code
      then if q.auto_ip_heal && not a.heal_attempted && bad_ip
        then (healed, record a { heal_attempted = true }, w')
        else if bad_ip && not q.auto_ip_heal
        then (false, a, w)
        else if not c.has_response_body && not a.connection_reset_attempted
        then (true, record a { connection_reset_attempted = true }, d.reset_connections w)
        else (false, a, w)
      else (false, a, w)

  -- A rejected sleep: the outer handler tells an abort from any other error.
  abbrev pub after_sleep : Attempts → Bool × W → Turn W T
  after_sleep a (true, w) = again a w
  after_sleep a (false, w) = if d.aborted w then cut a w else done business_raw a w

  unfoldable pub retry : ClassifiedWhmcsError → Attempts → W → Turn W T
  unfolding should_retry_read get_backoff_delay
  retry c a w =
      let (jitter, w') = d.jitter w in
      let delay = get_backoff_delay a.ordinary_attempt jitter in
      if should_retry_read c q.effect a.ordinary_attempt (attempt_budget q.effect)
        (is_read q.effect && q.allow_retry)
      then after_sleep (record a { ordinary_attempt = suc a.ordinary_attempt }) (d.sleep delay w')
      else done (transport c.status_code) a w

  abbrev pub repair_or_retry : ClassifiedWhmcsError → Bool × Attempts × W → Turn W T
  repair_or_retry c (true, a, w) = again a w
  repair_or_retry c (false, a, w) = retry c a w

  abbrev pub handle : Attempts → Posted T × W → Turn W T
  handle a (decoded t, w) = done (returned t) a w
  handle a (business_error, w) = done business a w
  handle a (failed e, w) =
      let c = classify_whmcs_error patterns e in
      if d.aborted w || c.cancelled then cut a w else repair_or_retry c (repair c a w)

  unfoldable pub turn : Attempts → W → Turn W T
  unfolding repair retry
  turn a w =
      if d.aborted w
      then cut a w
      else handle
          (record a {
            transport_attempt = suc a.transport_attempt;
            mutation_dispatched = a.mutation_dispatched || is_write q.effect;
          })
          (d.post w)

  abbrev pub go_on : (Attempts → W → Result T × Attempts × W) → Turn W T → Result T × Attempts × W
  go_on next (done r a w) = (r, a, w)
  go_on next (again a w) = next a w

  unfoldable pub loop : ℕ → Attempts → W → Result T × Attempts × W
  unfolding turn
  loop zero a w = (out_of_fuel, a, w)
  loop (suc fuel) a w = go_on (loop fuel) (turn a w)

  unfoldable pub execute : W → Result T × Attempts × W
  unfolding loop
  execute w = loop 5 start w

-- ===== src/Request/Tests.antt =====
-- Calls over a transport that answers from a script.
use whmcs_mcp_server.Prelude.{ℕ, ◌≤◌, ◌≡◌, refl, true, false, some, List, [], ◌∷◌}
use whmcs_mcp_server.Request.Classifier.{
  transport_error, axios_error, Patterns, nothing, classify_whmcs_error,
}
use whmcs_mcp_server.Request.RetryPolicy.{WhmcsRequestEffect, read, write}
use whmcs_mcp_server.Request.Pipeline.{
  Dependencies, Posted, decoded, failed, interrupted, Request, transport, execute,
}
use whmcs_mcp_server.Prelude.{ltb, Bool, none}
use whmcs_mcp_server.Request.Attempts.{ran_out, execute-ends}
use whmcs_mcp_server.Request.Interrupted.{execute-IsReported}

abbrev next : List (Posted ℕ) → Posted ℕ × List (Posted ℕ)
next [] = (decoded 0, [])
next (p ∷ ps) = (p, ps)

abbrev scripted : Dependencies (List (Posted ℕ)) ℕ
scripted = record {
  aborted = λ w. false;
  is_deadline = λ w. false;
  post = next;
  reset_connections = λ w. w;
  heal = λ w. (false, w);
  jitter = λ w. (0, w);
  sleep = λ ms w. (true, w);
}

abbrev patterns : Patterns
patterns = record { says_invalid_ip = λ s. false; says_invalid_permissions = λ s. false }

abbrev call_of : WhmcsRequestEffect → Request
call_of effect = record { effect = effect; allow_retry = true; auto_ip_heal = false }

-- A 403 with no body, then three failures of the server.
abbrev bad_day : List (Posted ℕ)
bad_day =
    failed (axios_error (record { response = some (403, nothing); code = ""; name = "" }))
    ∷ failed (transport_error (some 503))
    ∷ failed (transport_error (some 502))
    ∷ failed (transport_error (some 500))
    ∷ []

read_gives_up : (execute scripted patterns (call_of read) bad_day).0 ≡ transport (some 500)
unfolding execute classify_whmcs_error
read_gives_up = refl

write_not_retried :
    (execute scripted patterns (call_of write) (failed (transport_error (some 503)) ∷ [])).0
    ≡ transport (some 503)
unfolding execute classify_whmcs_error
write_not_retried = refl

execute-ends_example :
    (ran_out (execute scripted patterns (call_of read) bad_day).0 ≡ false)
    × ((execute scripted patterns (call_of read) bad_day).1.transport_attempt ≤ 5)
execute-ends_example = execute-ends scripted patterns (call_of read) bad_day

-- A transport during whose post the caller gives up.
abbrev abandoned : Dependencies Bool ℕ
abandoned = record {
  aborted = λ w. w;
  is_deadline = λ w. false;
  post = λ w. (failed (transport_error none), true);
  reset_connections = λ w. w;
  heal = λ w. (false, w);
  jitter = λ w. (0, w);
  sleep = λ ms w. (true, w);
}

write_abandoned : (execute abandoned patterns (call_of write) false).0 ≡ interrupted false true
unfolding execute classify_whmcs_error
write_abandoned = refl

execute-IsReported_example :
    true ≡ ltb 0 (execute abandoned patterns (call_of write) false).1.transport_attempt
execute-IsReported_example =
    execute-IsReported abandoned patterns (call_of write) false false true refl write_abandoned

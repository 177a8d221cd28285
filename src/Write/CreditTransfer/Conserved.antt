-- ===== src/Write/CreditTransfer/Conserved.antt =====
-- src/write/creditTransfer.ts, `executeUnlocked`: the credit calls of a whole run.
use whmcs_mcp_server.Prelude.{
  ap, ◌∙◌, ℤ, subst, pos, ◌+ℤ◌, ◌-ℤ◌, String, ◌≡◌, refl, sym, ◌⊎◌, inl, inr, Bool, true, false,
  Option, none, some, List, [], ◌∷◌, ◌++◌, arith, int_laws,
}
use mathlib.Core.List.{append-nil}
use whmcs_mcp_server.Prelude.JsNumber.{JsNumber}
use whmcs_mcp_server.Write.CreditTransfer.Types.{
  CreditTransferRecord, CreditTransferInput, CreditTransferStore, completed, find,
}
use whmcs_mcp_server.Write.CreditTransfer.Program.{
  Api, Js, Machine, CreditCall, CreditType, add, remove, Outcome, ok, threw, ◌>>=◌, pure, throw,
  gets, require, money, continue,
}
use whmcs_mcp_server.Write.CreditTransfer.Compensation.{Setting}
use whmcs_mcp_server.Write.CreditTransfer.Execute.{
  prepare, run_legs, start_or_replay, execute_unlocked, replay, clients_match, rest_matches,
}
use whmcs_mcp_server.Write.CreditTransfer.Quiet.{Holds}
use whmcs_mcp_server.Write.CreditTransfer.Ready.{IsReady, prepare-IsReady}
use whmcs_mcp_server.Write.CreditTransfer.Prepared.{Quiet-prepare, prepare-HasClaim, HasClaim}
use whmcs_mcp_server.Write.CreditTransfer.Legs.{
  IsFlagged, Legs, not_debited, posted, repaid, stranded,
}
use whmcs_mcp_server.Write.CreditTransfer.Legs.Run.{run_legs-LegsRun}

-- A run without a credit call throws, or returns the stored record of the request.
abbrev pub IsAnswered :
    CreditTransferStore → CreditTransferInput → Outcome CreditTransferRecord → Type 0
IsAnswered store input (threw e) = Unit
IsAnswered store input (ok r) = find input.request_id store ≡ some r

-- What a run did: no credit call, or the legs of a transfer that passed the checks.
pub data IsRun {W : Type 0} (api : Api W) (store : CreditTransferStore)
    (input : CreditTransferInput) (outcome : Outcome CreditTransferRecord)
    (before : List CreditCall) : List CreditCall → Type 0 where
  untouched : IsAnswered store input outcome → IsRun api store input outcome before before
  started :
      (set : Setting) (r : CreditTransferRecord) (made : List CreditCall)
      → IsReady api store input (set, r)
      → Legs set outcome made
      → IsRun api store input outcome before (before ++ made)

cancels : (a : ℤ) → (pos 0 +ℤ a) -ℤ a ≡ pos 0
cancels a = grind int_laws

-- The request asks for the transfer of the record.
pub record IsSame (js : Js) (input : CreditTransferInput) (existing : CreditTransferRecord)
    : Type 0 where
  amount : ℤ
  read : input.amount ≡ JsNumber.finite amount
  matches : (clients_match existing input ≡ true) × (rest_matches js existing input amount ≡ true)

module _ {W : Type 0} (js : Js) where
  -- A run of the replay moves nothing.
  replay-still :
      (input : CreditTransferInput) (existing : CreditTransferRecord) (st : Machine W)
      → (replay js input existing st).1 ≡ st
  unfolding replay ◌>>=◌ require pure throw money
  replay-still input existing st = ground arith

module _ {W : Type 0} (js : Js) where
  replay-result :
      (input : CreditTransferInput) (existing : CreditTransferRecord) (st : Machine W)
      (r : CreditTransferRecord)
      → (replay js input existing st).0 ≡ ok r
      → (r ≡ existing) × (existing.state ≡ completed) × (clients_match existing input ≡ true)
  unfolding replay ◌>>=◌ require pure throw money
  replay-result input existing st r h = ground arith

  replay-IsSame :
      (input : CreditTransferInput) (existing : CreditTransferRecord) (st : Machine W)
      (r : CreditTransferRecord) (n : JsNumber)
      → input.amount ≡ n
      → (replay js input existing st).0 ≡ ok r
      → IsSame js input existing
  unfolding replay ◌>>=◌ require pure throw money
  replay-IsSame input existing st r (JsNumber.finite amount) e h = record {
    amount = amount;
    read = e;
    matches = ground arith;
  }
  replay-IsSame input existing st r JsNumber.nan e h = absurd (ground arith)
  replay-IsSame input existing st r JsNumber.infinity e h = absurd (ground arith)
  replay-IsSame input existing st r JsNumber.neg_infinity e h = absurd (ground arith)

module _ {W : Type 0} (js : Js) where
  replay-IsAnswered :
      (input : CreditTransferInput) (existing : CreditTransferRecord) (st : Machine W)
      (o : Outcome CreditTransferRecord)
      → (replay js input existing st).0 ≡ o
      → find input.request_id st.store ≡ some existing
      → IsAnswered st.store input o
  replay-IsAnswered input existing st (threw e) h known = tt
  replay-IsAnswered input existing st (ok r) h known =
      let (same, _, _) = replay-result js input existing st r h in known ∙ ap some (sym same)

  replay-ok :
      (input : CreditTransferInput) (existing : CreditTransferRecord) (st : Machine W)
      → existing.state ≡ completed
      → IsSame js input existing
      → (replay js input existing st).0 ≡ ok existing
  unfolding replay ◌>>=◌ require pure throw money
  replay-ok input existing st is_done same =
      ground (arith, is_done, same.read, same.matches.0, same.matches.1)

module _ {W : Type 0} (api : Api W) (js : Js) where
  -- The legs, once the preparation has ended.
  legs-IsRun :
      (store : CreditTransferStore) (input : CreditTransferInput) (before : List CreditCall)
      (o : Outcome (Setting × CreditTransferRecord)) (st : Machine W)
      → st.calls ≡ before
      → ((a : Setting × CreditTransferRecord)
          → o ≡ ok a
          → IsReady api store input a × HasClaim before a st)
      → IsRun api store input
          (continue o (run_legs api js) st).0
          before
          (continue o (run_legs api js) st).1.calls
  legs-IsRun store input before (threw e) st same h =
      subst (IsRun api store input (threw e) before) (sym same) (untouched tt)
  legs-IsRun store input before (ok ready) st same h =
      let (fine, claims) = h ready refl in
      let run = run_legs-LegsRun api js ready.0 ready.1 st claims in
      rw run.appended (started ready.0 ready.1 run.made fine run.legs)

  start-IsRun :
      (input : CreditTransferInput) (uuid : String) (st : Machine W)
      → IsRun api st.store input
          ((prepare api js input uuid >>= run_legs api js) st).0
          st.calls
          ((prepare api js input uuid >>= run_legs api js) st).1.calls
  unfolding ◌>>=◌
  start-IsRun input uuid st =
      let blank : Holds st.calls "" none st = record { made = refl; claimed = tt } in
      let m = prepare api js input uuid in
      legs-IsRun st.store input st.calls (m st).0 (m st).1
        ((Quiet-prepare api js input uuid).at st blank).made
        λ a e. (
          prepare-IsReady api js input uuid st a e,
          (prepare-HasClaim api js input uuid).at st a blank e,
        )

  -- Whatever WHMCS answers, a run makes no credit call, or exactly those of the two legs and the
  -- compensation of one transfer. That transfer is the request's, or for a reversal that of a
  -- completed record of the store, swapped: its clients, which are different, and its amount, which
  -- is positive and no more than the credit that WHMCS has answered for the source. What the run
  -- returns agrees with the calls: it throws if the debit did; if both legs returned, the record is
  -- completed or left for repair, or the read-back threw; if the second leg threw, the record is
  -- compensated or left for repair, and left for repair if the repayment threw. A run without a
  -- credit call throws or returns the stored record of the request.
  pub execute_unlocked-IsRun :
      (input : CreditTransferInput) (uuid : String) (st : Machine W)
      → IsRun api st.store input
          (execute_unlocked api js input uuid st).0
          st.calls
          (execute_unlocked api js input uuid st).1.calls
  unfolding execute_unlocked start_or_replay ◌>>=◌ gets
  execute_unlocked-IsRun input uuid st = go (find input.request_id st.store) refl
    where
      go :
          (o : Option CreditTransferRecord)
          → find input.request_id st.store ≡ o
          → IsRun api st.store input
              (start_or_replay api js input uuid o st).0
              st.calls
              (start_or_replay api js input uuid o st).1.calls
      go none h = start-IsRun input uuid st
      go (some existing) h =
          rw (replay-still js input existing st)
            (untouched (replay-IsAnswered js input existing st _ refl h))

abbrev pub moved_by : CreditType → Bool → ℤ → ℤ → ℤ
moved_by type false amount rest = rest
moved_by add true amount rest = rest +ℤ amount
moved_by remove true amount rest = rest -ℤ amount

-- What the calls that returned moved, taken together.
abbrev pub moved : List CreditCall → ℤ
moved [] = pos 0
moved (c ∷ cs) = moved_by c.type c.returned c.amount (moved cs)

Legs-moved :
    (set : Setting) (outcome : Outcome CreditTransferRecord) (made : List CreditCall)
    → Legs set outcome made
    → (moved made ≡ pos 0) ⊎ IsFlagged outcome
Legs-moved set outcome _ (not_debited t) = inl refl
Legs-moved set outcome _ (posted settled) = inl (cancels set.amount)
Legs-moved set outcome _ (repaid back) = inl (cancels set.amount)
Legs-moved set outcome _ (stranded flagged) = inr flagged

-- The calls of a run are appended, and cancel out unless the transfer is left for repair.
pub record IsConserved (outcome : Outcome CreditTransferRecord) (before after : List CreditCall)
    : Type 0 where
  made : List CreditCall
  appended : after ≡ before ++ made
  balanced : (moved made ≡ pos 0) ⊎ IsFlagged outcome

IsRun-IsConserved :
    {W : Type 0} (api : Api W) (store : CreditTransferStore) (input : CreditTransferInput)
    (outcome : Outcome CreditTransferRecord) (before after : List CreditCall)
    → IsRun api store input outcome before after
    → IsConserved outcome before after
IsRun-IsConserved api store input outcome before _ (untouched answered) = record {
  made = [];
  appended = sym (append-nil before);
  balanced = inl refl;
}
IsRun-IsConserved api store input outcome before _ (started set r made ready legs) = record {
  made = made;
  appended = refl;
  balanced = Legs-moved set outcome made legs;
}

module _ {W : Type 0} (api : Api W) (js : Js) where
  -- Whatever WHMCS answers, the amounts of the credit calls of a run that returned add up to zero,
  -- or the run returns a record in state `audit_repair_required`.
  pub execute_unlocked-IsConserved :
      (input : CreditTransferInput) (uuid : String) (st : Machine W)
      → IsConserved
          (execute_unlocked api js input uuid st).0
          st.calls
          (execute_unlocked api js input uuid st).1.calls
  execute_unlocked-IsConserved input uuid st =
      IsRun-IsConserved api st.store input _ _ _ (execute_unlocked-IsRun api js input uuid st)

  -- A request id that the store knows moves nothing and stores nothing. It is answered exactly if
  -- the stored record is completed and the request asks for the same transfer, and then with that
  -- record.
  pub execute_unlocked-replayed :
      (input : CreditTransferInput) (uuid : String) (st : Machine W)
      (existing : CreditTransferRecord)
      → find input.request_id st.store ≡ some existing
      → ((execute_unlocked api js input uuid st).1 ≡ st)
        × ((r : CreditTransferRecord)
            → (execute_unlocked api js input uuid st).0 ≡ ok r
            → (r ≡ existing) × (existing.state ≡ completed) × IsSame js input existing)
        × (existing.state ≡ completed
            → IsSame js input existing
            → (execute_unlocked api js input uuid st).0 ≡ ok existing)
  unfolding execute_unlocked start_or_replay ◌>>=◌ gets
  execute_unlocked-replayed input uuid st existing known = rw known (
    replay-still js input existing st,
    λ r h.
        let (same, is_done, _) = replay-result js input existing st r h in
        (same, is_done, replay-IsSame js input existing st r input.amount refl h),
    λ is_done same. replay-ok js input existing st is_done same,
  )

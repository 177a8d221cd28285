-- ===== src/Write/Flow/Steps.antt =====
-- src/tools/writeFlow.ts: how a program is followed one step at a time.
use whmcs_mcp_server.Prelude.{
  String, ◌≡◌, refl, sym, ap, subst, ◌∙◌, Bool, true, false, Option, some, if◌then◌else◌,
}
use whmcs_mcp_server.Write.Types.{WriteIntent, WriteIntentState}
use whmcs_mcp_server.Write.Intents.{find, transitions, includes_state}
use whmcs_mcp_server.Write.Intents.Lifecycle.{transition-legal}
use whmcs_mcp_server.Write.Audit.{AuditEventType}
use whmcs_mcp_server.Write.Mapping.Values.{Output}
use whmcs_mcp_server.Write.Flow.Program.{
  Api, Flow, M, Outcome, ok, continue, pure, gets, ◌>>=◌, move_intent, moved_outcome, read,
  append_event,
}

-- Two states that differ at most in WHMCS and in the audit log.
pub record Same {W : Type 0} (st st' : Flow W) : Type 0 where
  pub store : st'.store ≡ st.store
  pub ledger : st'.ledger ≡ st.ledger
  pub approvals : st'.approvals ≡ st.approvals
  pub day_amounts : st'.day_amounts ≡ st.day_amounts
  pub effects : st'.effects ≡ st.effects

pub Same-refl : {W : Type 0} (st : Flow W) → Same st st
Same-refl st = record {
  store = refl;
  ledger = refl;
  approvals = refl;
  day_amounts = refl;
  effects = refl;
}

-- A program that always returns, in such a state.
pub record Calm {W A : Type 0} (m : M W A) : Type 0 where
  pub returns : (st : Flow W) → (a : A) × ((m st).0 ≡ ok a)
  pub same : (st : Flow W) → Same st (m st).1

module _ {W A B : Type 0} where
  pub bind_ok :
      (m : M W A) (k : A → M W B) (st : Flow W) (a : A)
      → (m st).0 ≡ ok a
      → (m >>= k) st ≡ k a (m st).1
  unfolding ◌>>=◌
  bind_ok m k st a h = ap (λ o. continue o k (m st).1) h

  -- What holds after every way to go on from a calm step holds after the step and the rest.
  pub after-Calm :
      (Q : Outcome B × Flow W → Type 0) (m : M W A) (k : A → M W B) (st : Flow W)
      → Calm m
      → ((a : A) (st' : Flow W) → Same st st' → Q (k a st'))
      → Q ((m >>= k) st)
  after-Calm Q m k st c f =
      let (a, h) = c.returns st in subst Q (sym (bind_ok m k st a h)) (f a (m st).1 (c.same st))

module _ {W : Type 0} where
  pub pure-Calm : {A : Type 0} (a : A) → Calm (pure {W = W} a)
  unfolding pure
  pure-Calm a = record { returns = λ st. (a, refl); same = λ st. Same-refl st }

  pub gets-Calm : {A : Type 0} (f : Flow W → A) → Calm (gets f)
  unfolding gets
  gets-Calm f = record { returns = λ st. (f st, refl); same = λ st. Same-refl st }

  pub bind-Calm :
      {A B : Type 0} (m : M W A) (k : A → M W B) → Calm m → ((a : A) → Calm (k a)) → Calm (m >>= k)
  bind-Calm m k c f = record {
    returns =
        λ st. after-Calm (λ p. (b : _) × (p.0 ≡ ok b)) m k st c (λ a st' s. (f a).returns st');
    same = λ st. after-Calm (λ p. Same st p.1) m k st c (λ a st' s. Same-trans s ((f a).same st'));
  }
    where
      Same-trans : {st st' st'' : Flow W} → Same st st' → Same st' st'' → Same st st''
      Same-trans s t = record {
        store = t.store ∙ s.store;
        ledger = t.ledger ∙ s.ledger;
        approvals = t.approvals ∙ s.approvals;
        day_amounts = t.day_amounts ∙ s.day_amounts;
        effects = t.effects ∙ s.effects;
      }

  pub if-Calm : {A : Type 0} (b : Bool) (m n : M W A) → Calm m → Calm n → Calm (if b then m else n)
  if-Calm true m n c d = c
  if-Calm false m n c d = d

  module _ (api : Api W) where
    pub read-Calm : (action : String) (params : Output) → Calm (read api action params)
    unfolding read
    read-Calm action params = record {
      returns = λ st. ((api.read action params st.whmcs).0, refl);
      same = λ st. record {
        store = refl;
        ledger = refl;
        approvals = refl;
        day_amounts = refl;
        effects = refl;
      };
    }

    pub append_event-Calm :
        (type : AuditEventType) (intent : WriteIntent) (detail : Option String)
        → Calm (append_event api type intent detail)
    unfolding append_event
    append_event-Calm type intent detail = record {
      returns = λ st. (tt, refl);
      same = λ st. record {
        store = refl;
        ledger = refl;
        approvals = refl;
        day_amounts = refl;
        effects = refl;
      };
    }

-- An intent in another state.
abbrev pub with_state : WriteIntent → WriteIntentState → WriteIntent
with_state intent s = record intent { state = s }

-- What a move of an intent changes: its state in the store.
pub record Moved {W : Type 0} (intent : WriteIntent) (id : String) (s : WriteIntentState)
    (st st' : Flow W) : Type 0 where
  pub stored : find id st'.store ≡ some (with_state intent s)
  pub ledger : st'.ledger ≡ st.ledger
  pub approvals : st'.approvals ≡ st.approvals
  pub day_amounts : st'.day_amounts ≡ st.day_amounts
  pub effects : st'.effects ≡ st.effects

abbrev IsLegalMove : {W : Type 0} → WriteIntent → String → WriteIntentState → Flow W → Type 0
IsLegalMove intent id s st =
    (find id st.store ≡ some intent) × (includes_state (transitions intent.state) s ≡ true)

move_intent-ok :
    {W : Type 0} (id : String) (s : WriteIntentState) (st : Flow W) (intent : WriteIntent)
    → IsLegalMove intent id s st
    → ((move_intent id s st).0 ≡ ok (with_state intent s))
      × Moved intent id s st (move_intent id s st).1
unfolding move_intent
move_intent-ok id s st intent (h, legal) =
    let (returned, stored) = transition-legal id s st.store intent h legal in
    (
      ap moved_outcome returned,
      record {
        stored = stored;
        ledger = refl;
        approvals = refl;
        day_amounts = refl;
        effects = refl;
      },
    )

-- A legal move of a stored intent, and the rest of the program.
pub after_move :
    {W B : Type 0} (Q : Outcome B × Flow W → Type 0) (id : String) (s : WriteIntentState)
    (k : WriteIntent → M W B) (st : Flow W) (intent : WriteIntent)
    → find id st.store ≡ some intent
    → includes_state (transitions intent.state) s ≡ true
    → ((st' : Flow W) → Moved intent id s st st' → Q (k (with_state intent s) st'))
    → Q ((move_intent id s >>= k) st)
after_move Q id s k st intent h legal f =
    let (returned, moves) = move_intent-ok id s st intent (h, legal) in
    subst Q (sym (bind_ok (move_intent id s) k st (with_state intent s) returned))
      (f (move_intent id s st).1 moves)

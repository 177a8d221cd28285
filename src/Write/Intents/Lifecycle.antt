-- ===== src/Write/Intents/Lifecycle.antt =====
-- The life of an intent under any sequence of transition requests.
use whmcs_mcp_server.Prelude.{
  Option-cases, Bool-cases, inl, inr, sym, subst, ◌∙◌, eq_refl, ℕ, ◌+◌, ◌≤◌, String, ◌≡◌, ◌≢◌, ◌↔◌,
  refl, true, false, some, List, [], ◌∷◌, length, arith, eq_iff, str_eq, if◌then◌else◌,
}
use whmcs_mcp_server.Prelude.JsMap
use whmcs_mcp_server.Prelude.JsMap.{get-set}
use whmcs_mcp_server.Write.Types.{
  WriteIntentState, draft, validated, approved, executed, WriteIntent,
}
use whmcs_mcp_server.Write.Intents.{
  IntentStore, find, transition, transitions, TransitionResult, moved, refused, TransitionError,
  includes_state, persist,
}

pub persist-intents : (s : IntentStore) → (persist s).intents ≡ s.intents
unfolding persist
persist-intents s = ground arith

-- The intent is there, the table has the target, and `next` is the intent with the new state.
pub record IsLegal (id : String) (target : WriteIntentState) (s : IntentStore) (next : WriteIntent)
    : Type 0 where
  pub intent : WriteIntent
  pub stored : find id s ≡ some intent
  pub legal : includes_state (transitions intent.state) target ≡ true
  pub next_is : next ≡ record intent { state = target }

transition-IsLegal :
    (id : String) (target : WriteIntentState) (s : IntentStore) (next : WriteIntent)
    → (transition id target s).0 ≡ moved next
    → IsLegal id target s next
unfolding transition find
transition-IsLegal id target s next h = elim (Option-cases (JsMap.get id s.intents)) [
  | inl missing ↦ absurd (ground arith)
  | inr (i, here) ↦ record {
    intent = i;
    stored = here;
    legal = ground arith;
    next_is = ground arith;
  }
]

-- A transition succeeds exactly when the intent is there and the table has the target; then the
-- intent, with the new state and all else as before, is returned and stored, and no other changes.
pub transition-moved :
    (id : String) (target : WriteIntentState) (s : IntentStore) (next : WriteIntent)
    → (((transition id target s).0 ≡ moved next) ↔ IsLegal id target s next)
      × ((transition id target s).0 ≡ moved next
          → (j : String)
          → find j (transition id target s).1 ≡ (if str_eq id j then some next else find j s))
unfolding transition find
transition-moved id target s next = (
  (transition-IsLegal id target s next, λ l. ground (arith, l.stored, l.legal, l.next_is)),
  λ h j.
      let l = transition-IsLegal id target s next h in
      let i = l.intent in
      ground (
        arith,
        l.stored,
        l.legal,
        l.next_is,
        persist-intents
            (record s { intents = JsMap.set id (record i { state = target }) s.intents }),
        get-set id j (record i { state = target }) s.intents,
      ),
)

-- What a legal transition of a stored intent returns and stores.
pub transition-legal :
    (id : String) (target : WriteIntentState) (s : IntentStore) (i : WriteIntent)
    → find id s ≡ some i
    → includes_state (transitions i.state) target ≡ true
    → ((transition id target s).0 ≡ moved (record i { state = target }))
      × (find id (transition id target s).1 ≡ some (record i { state = target }))
unfolding transition find
transition-legal id target s i f h = (
  ground arith,
  ground (
    arith,
    eq_iff id id,
    persist-intents (record s { intents = JsMap.set id (record i { state = target }) s.intents }),
    get-set id id (record i { state = target }) s.intents,
  ),
)

-- A refused transition names its cause, and the store, its file included, stays as it was.
pub transition-refused :
    (id : String) (target : WriteIntentState) (s : IntentStore) (e : TransitionError)
    → (transition id target s).0 ≡ refused e
    → (transition id target s).1 ≡ s
unfolding transition
transition-refused id target s e h = ground arith

-- A request for a transition: an intent's id and the target.
abbrev pub Request : Type 0
Request = String × WriteIntentState

unfoldable pub request_all : List Request → IntentStore → IntentStore
request_all [] s = s
request_all ((id, target) ∷ rs) s = request_all rs (transition id target s).1

-- The targets of the requests for one intent that succeed.
abbrev accepted_now :
    String
    → String
    → WriteIntentState
    → TransitionResult
    → List WriteIntentState
    → List WriteIntentState
accepted_now id j target (refused e) rest = rest
accepted_now id j target (moved i) rest = if str_eq j id then target ∷ rest else rest

unfoldable pub accepted : String → List Request → IntentStore → List WriteIntentState
accepted id [] s = []
accepted id ((j, target) ∷ rs) s =
    accepted_now id j target (transition j target s).0 (accepted id rs (transition j target s).1)

-- A way through the table.
abbrev pub Way : WriteIntentState → List WriteIntentState → WriteIntentState → Type 0
Way from [] to = from ≡ to
Way from (s ∷ path) to = (includes_state (transitions from) s ≡ true) × Way s path to

-- One request, seen from an intent: it takes an edge of the table, or leaves the intent alone.
record Moves (id j : String) (target : WriteIntentState) (s : IntentStore) (i : WriteIntent)
    : Type 0 where
  after : WriteIntent
  found : find id (transition j target s).1 ≡ some after
  kept : after ≡ record i { state = after.state }
  edge :
      (rest : List WriteIntentState) (to : WriteIntentState)
      → Way after.state rest to
      → Way i.state (accepted_now id j target (transition j target s).0 rest) to

transition-other :
    (id j : String) (target : WriteIntentState) (s : IntentStore)
    → j ≢ id
    → find id (transition j target s).1 ≡ find id s
unfolding transition find
transition-other id j target s n = elim (Option-cases (JsMap.get j s.intents)) [
  | inl missing ↦ ground arith
  | inr (c, here) ↦ ground (
    arith,
    eq_iff j id,
    persist-intents (record s { intents = JsMap.set j (record c { state = target }) s.intents }),
    get-set j id (record c { state = target }) s.intents,
  )
]

transition-Moves_self :
    (id : String) (target : WriteIntentState) (s : IntentStore) (i : WriteIntent)
    → find id s ≡ some i
    → Moves id id target s i
unfolding transition find
transition-Moves_self id target s i f =
    elim (Bool-cases (includes_state (transitions i.state) target)) [
      | inl legal ↦ record {
        after = record i { state = target };
        found = ground (
          arith,
          eq_refl id,
          persist-intents
              (record s { intents = JsMap.set id (record i { state = target }) s.intents }),
          get-set id id (record i { state = target }) s.intents,
        );
        kept = refl;
        edge = λ rest to w. rw (f, legal, eq_refl id) (legal, w);
      }
      | inr illegal ↦ record {
        after = i;
        found = ground arith;
        kept = refl;
        edge = λ rest to w. rw (f, illegal) w;
      }
    ]

accepted_now-other :
    (id j : String) (target : WriteIntentState) (r : TransitionResult)
    (rest : List WriteIntentState)
    → str_eq j id ≡ false
    → accepted_now id j target r rest ≡ rest
accepted_now-other id j target r rest n = ground arith

transition-Moves :
    (id j : String) (target : WriteIntentState) (s : IntentStore) (i : WriteIntent)
    → find id s ≡ some i
    → Moves id j target s i
transition-Moves id j target s i f = elim (Bool-cases (str_eq j id)) [
  | inl same ↦
      subst (λ k. Moves id k target s i) (sym ((eq_iff j id).0 same))
        (transition-Moves_self id target s i f)
  | inr other ↦ record {
    after = i;
    found = transition-other id j target s (λ e. cc (other, (eq_iff j id).1 e)) ∙ f;
    kept = refl;
    edge = λ rest to w. rw (accepted_now-other id j target (transition j target s).0 rest other) w;
  }
]

-- After any requests, an intent that was in the store is there, differs at most in its state, and
-- the targets that succeeded for it are a way through the table from its old state to its new one.
pub request_all-Way :
    (id : String) (rs : List Request) (s : IntentStore) (i : WriteIntent)
    → find id s ≡ some i
    → (last : WriteIntent) × (find id (request_all rs s) ≡ some last)
      × (last ≡ record i { state = last.state })
      × Way i.state (accepted id rs s) last.state
unfolding request_all accepted
request_all-Way id [] s i f = (i, f, refl, refl)
request_all-Way id ((j, target) ∷ rs) s i f =
    let m = transition-Moves id j target s i f in
    let (last, there, kept, way) =
      request_all-Way id rs (transition j target s).1 m.after m.found in
    (
      last,
      there,
      cc (kept, m.kept),
      m.edge (accepted id rs (transition j target s).1) last.state way,
    )

-- How many transitions a state can still take.
abbrev steps_left : WriteIntentState → ℕ
steps_left draft = 4
steps_left validated = 3
steps_left approved = 2
steps_left executed = 1
steps_left _ = 0

Way-step :
    (from s : WriteIntentState)
    → includes_state (transitions from) s ≡ true
    → steps_left s + 1 ≤ steps_left from
unfolding transitions
Way-step from s h = ground arith

Way-length :
    (from to : WriteIntentState) (path : List WriteIntentState)
    → Way from path to
    → length path + steps_left to ≤ steps_left from
Way-length from to [] w = ground arith
Way-length from to (s ∷ path) (edge, w) =
    omega (arith, Way-step from s edge, Way-length s to path w)

-- Whatever is requested, at most four transitions of an intent succeed.
pub accepted_bound :
    (id : String) (rs : List Request) (s : IntentStore) (i : WriteIntent)
    → find id s ≡ some i
    → length (accepted id rs s) ≤ 4
accepted_bound id rs s i f =
    let (last, there, kept, way) = request_all-Way id rs s i f in
    let bound = Way-length i.state last.state (accepted id rs s) way in ground arith

Way-executed :
    (path : List WriteIntentState)
    → Way draft path executed
    → path ≡ validated ∷ approved ∷ executed ∷ []
unfolding transitions
Way-executed [] w = cc
Way-executed (a ∷ []) w = ground arith
Way-executed (a ∷ b ∷ []) w = ground arith
Way-executed (a ∷ b ∷ c ∷ []) w = ground arith
Way-executed (a ∷ b ∷ c ∷ d ∷ path) w =
    let bound = Way-length draft executed (a ∷ b ∷ c ∷ d ∷ path) w in absurd (omega arith)

-- A draft that ends up executed was validated, approved and executed, in this order and once each,
-- and by no other way.
pub executed_needs_approval :
    (id : String) (rs : List Request) (s : IntentStore) (i last : WriteIntent)
    → find id s ≡ some i
    → i.state ≡ draft
    → find id (request_all rs s) ≡ some last
    → last.state ≡ executed
    → accepted id rs s ≡ validated ∷ approved ∷ executed ∷ []
executed_needs_approval id rs s i last f d g e =
    let (end, there, kept, way) = request_all-Way id rs s i f in
    let same : end.state ≡ executed = ground arith in
    Way-executed (accepted id rs s) (
      subst (λ t. Way draft (accepted id rs s) t) same
        (subst (λ t. Way t (accepted id rs s) end.state) d way))

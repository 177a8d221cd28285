-- ===== src/Write/Ledger/Restart.antt =====
-- The ledger across a restart.
use whmcs_mcp_server.Prelude.{
  ℕ, ◌+◌, ◌≤◌, String, ◌≡◌, refl, Bool, false, Option, none, some, List, [], ◌∷◌, ◌++◌, str_eq, ltb,
  arith, if◌then◌else◌, Bool-cases, inl, inr, ap, ◌∙◌, sym,
}
use whmcs_mcp_server.Prelude.JsMap
use whmcs_mcp_server.Prelude.JsMap.{JsMap, get-set}
use whmcs_mcp_server.Json.{Json}
use whmcs_mcp_server.Write.Ledger.{
  LedgerEntry, Line, IdempotencyLedger, replayed, to_persisted_replay, load_line, load_lines,
  open_ledger, record_result, seen,
}
use whmcs_mcp_server.Write.Ledger.Window.{is_alive, seen-is_alive}

-- A write to a ledger: a key, its result, and the time.
pub record Write : Type 0 where
  pub key : String
  pub result : Json
  pub at : ℕ

-- Writes in order of time.
abbrev pub IsTimed : ℕ → List Write → Type 0
IsTimed start [] = Unit
IsTimed start (w ∷ ws) = (start ≤ w.at) × IsTimed w.at ws

abbrev pub end_time : ℕ → List Write → ℕ
end_time start [] = start
end_time start (w ∷ ws) = end_time w.at ws

pub record_all : List Write → IdempotencyLedger → IdempotencyLedger
record_all [] l = l
record_all (w ∷ ws) l = record_all ws (record_result w.key w.result w.at l)

-- Every line expires at `least` or later, and no line expires before the one above it.
abbrev IsAscending : ℕ → List (Option Line) → Type 0
IsAscending least [] = Unit
IsAscending least (none ∷ ls) = IsAscending least ls
IsAscending least (some line ∷ ls) = (least ≤ line.expires_at) × IsAscending line.expires_at ls

abbrev end_expiry : ℕ → List (Option Line) → ℕ
end_expiry least [] = least
end_expiry least (none ∷ ls) = end_expiry least ls
end_expiry least (some line ∷ ls) = end_expiry line.expires_at ls

-- Whether a key's last line is inside its window; `before` where it has none.
last_alive : ℕ → String → List (Option Line) → Bool → Bool
last_alive now k [] before = before
last_alive now k (none ∷ ls) before = last_alive now k ls before
last_alive now k (some line ∷ ls) before =
    last_alive now k ls (if str_eq line.key k then ltb now line.expires_at else before)

last_alive-append :
    (now : ℕ) (k : String) (ls : List (Option Line)) (line : Line) (before : Bool)
    → last_alive now k (ls ++ some line ∷ []) before
      ≡ (if str_eq line.key k then ltb now line.expires_at else last_alive now k ls before)
unfolding last_alive
last_alive-append now k [] line before = refl
last_alive-append now k (none ∷ ls) line before = last_alive-append now k ls line before
last_alive-append now k (some l ∷ ls) line before = last_alive-append now k ls line _

IsAscending-append :
    (least : ℕ) (ls : List (Option Line)) (line : Line)
    → IsAscending least ls
    → end_expiry least ls ≤ line.expires_at
    → IsAscending least (ls ++ some line ∷ [])
IsAscending-append least [] line a h = (h, tt)
IsAscending-append least (none ∷ ls) line a h = IsAscending-append least ls line a h
IsAscending-append least (some l ∷ ls) line (p, a) h =
    (p, IsAscending-append l.expires_at ls line a h)

end_expiry-append :
    (least : ℕ) (ls : List (Option Line)) (line : Line)
    → end_expiry least (ls ++ some line ∷ []) ≡ line.expires_at
end_expiry-append least [] line = refl
end_expiry-append least (none ∷ ls) line = end_expiry-append least ls line
end_expiry-append least (some l ∷ ls) line = end_expiry-append l.expires_at ls line

-- No entry of the map outlives `most`.
abbrev EndsBy : ℕ → String → JsMap LedgerEntry → Type 0
EndsBy most k m = (e : LedgerEntry) → JsMap.get k m ≡ some e → e.expires_at ≤ most

is_alive_EndsBy :
    (most later : ℕ) (o : Option LedgerEntry)
    → ((e : LedgerEntry) → o ≡ some e → e.expires_at ≤ most)
    → most ≤ later
    → is_alive later o ≡ false
is_alive_EndsBy most later none h p = refl
is_alive_EndsBy most later (some e) h p = ground (arith, h e refl)

module _ (start later least : ℕ) (k : String) (line : Line) (m : JsMap LedgerEntry) where
  load_line-is_alive :
      start ≤ later
      → EndsBy least k m
      → least ≤ line.expires_at
      → is_alive later (JsMap.get k (load_line start line m))
        ≡ (if str_eq line.key k then ltb later line.expires_at else is_alive later (JsMap.get k m))
  unfolding load_line
  load_line-is_alive s h p = elim (Bool-cases (ltb start line.expires_at)) [
    | inl kept ↦ rw kept (simp get-set (ground arith))
    | inr dropped ↦
        let least_later : least ≤ later = ground arith in
        rw dropped (ground (arith, is_alive_EndsBy least later (JsMap.get k m) h least_later))
  ]

  load_line-EndsBy :
      EndsBy least k m → least ≤ line.expires_at → EndsBy line.expires_at k (load_line start line m)
  unfolding load_line
  load_line-EndsBy h p e q = ground (
    arith,
    get-set line.key k (record { result = replayed line.replay; expires_at = line.expires_at }) m,
    h e,
  )

-- The loader keeps exactly what the last lines say, as seen from the time of the load on.
load_lines-last_alive :
    (start later least : ℕ) (k : String) (ls : List (Option Line)) (m : JsMap LedgerEntry)
    → start ≤ later
    → IsAscending least ls
    → EndsBy least k m
    → is_alive later (JsMap.get k (load_lines start ls m))
      ≡ last_alive later k ls (is_alive later (JsMap.get k m))
unfolding load_lines last_alive
load_lines-last_alive start later least k [] m s a h = refl
load_lines-last_alive start later least k (none ∷ ls) m s a h =
    load_lines-last_alive start later least k ls m s a h
load_lines-last_alive start later least k (some line ∷ ls) m s (p, a) h =
    load_lines-last_alive start later line.expires_at k ls (load_line start line m) s a
      (load_line-EndsBy start later least k line m h p)
    ∙ ap (last_alive later k ls) (load_line-is_alive start later least k line m s h p)

-- The ledger's answers, from `now` on, are those of its file.
record IsBacked (now : ℕ) (l : IdempotencyLedger) (ls : List (Option Line)) : Type 0 where
  file : l.file ≡ some ls
  ascending : IsAscending 0 ls
  ends : end_expiry 0 ls ≤ now + l.window_ms
  agrees :
      (k : String) (later : ℕ)
      → is_alive later (JsMap.get k l.entries) ≡ last_alive later k ls false

record_result-IsBacked :
    (start : ℕ) (w : Write) (l : IdempotencyLedger) (ls : List (Option Line))
    → start ≤ w.at
    → IsBacked start l ls
    → (ls' : List (Option Line)) × IsBacked w.at (record_result w.key w.result w.at l) ls'
unfolding record_result
record_result-IsBacked start w l ls s b =
    let line : Line = record {
      key = w.key;
      expires_at = w.at + l.window_ms;
      replay = to_persisted_replay w.result w.at;
    } in
    let fits : end_expiry 0 ls ≤ w.at + l.window_ms = omega (arith, b.ends) in
    (
      ls ++ some line ∷ [],
      record {
        file = rw b.file;
        ascending = IsAscending-append 0 ls line b.ascending fits;
        ends = rw (end_expiry-append 0 ls line) (omega arith);
        agrees = λ k later. simp (get-set, last_alive-append) (ground (arith, b.agrees k later));
      },
    )

record_all-IsBacked :
    (start : ℕ) (ws : List Write) (l : IdempotencyLedger) (ls : List (Option Line))
    → IsTimed start ws
    → IsBacked start l ls
    → (ls' : List (Option Line)) × IsBacked (end_time start ws) (record_all ws l) ls'
unfolding record_all
record_all-IsBacked start [] l ls t b = (ls, b)
record_all-IsBacked start (w ∷ ws) l ls (s, t) b =
    let (ls', b') = record_result-IsBacked start w l ls s b in
    record_all-IsBacked w.at ws (record_result w.key w.result w.at l) ls' t b'

seen-open_ledger :
    (window_ms now reopened later : ℕ) (l : IdempotencyLedger) (ls : List (Option Line))
    (k : String)
    → IsBacked now l ls
    → reopened ≤ later
    → (seen k later (open_ledger window_ms reopened l.file)).0 ≡ (seen k later l).0
unfolding open_ledger
seen-open_ledger window_ms now reopened later l ls k b r =
    simp (seen-is_alive, b.file)
      (load_lines-last_alive reopened later 0 k ls [] r b.ascending
          (unfold JsMap.get in (λ e p. cc))
        ∙ (unfold JsMap.get in sym (b.agrees k later)))

IsBacked-open_ledger :
    (window_ms start : ℕ) → IsBacked start (open_ledger window_ms start (some [])) []
unfolding open_ledger last_alive JsMap.get
IsBacked-open_ledger window_ms start = record {
  file = refl;
  ascending = tt;
  ends = omega arith;
  agrees = λ k later. refl;
}

-- A ledger that starts on an empty file, records results in order of time, and is opened again on
-- that file at any later time says of every key, from then on, whether it was seen as if there had
-- been no restart. Of the recorded results nothing is said.
pub seen-restart :
    (window_ms start reopened later : ℕ) (ws : List Write) (k : String)
    → IsTimed start ws
    → reopened ≤ later
    → let l = record_all ws (open_ledger window_ms start (some [])) in
      (seen k later (open_ledger window_ms reopened l.file)).0 ≡ (seen k later l).0
seen-restart window_ms start reopened later ws k t r =
    let l = open_ledger window_ms start (some []) in
    let (ls, b) = record_all-IsBacked start ws l [] t (IsBacked-open_ledger window_ms start) in
    seen-open_ledger window_ms (end_time start ws) reopened later (record_all ws l) ls k b r

-- ===== src/Write/Intents/Reopen.antt =====
-- The store of intents across a restart.
use whmcs_mcp_server.Prelude.{
  ℕ, String, ◌≡◌, refl, Bool, true, false, not, Option, none, some, List, [], ◌∷◌, leb, arith,
  eq_iff, ◌∙◌, subst, Bool-cases, inl, inr,
}
use whmcs_mcp_server.Prelude.JsMap
use whmcs_mcp_server.Prelude.JsMap.{
  JsMap, HasUniqueKeys, get-keep, keep-HasUniqueKeys, get-set, set-HasUniqueKeys, guarded,
}
use whmcs_mcp_server.Write.Types.{WriteIntent, WriteIntentState}
use whmcs_mcp_server.Write.Intents.{
  or_nothing, move, IntentStore, find, prune, persist, open_store, values, load_intents,
  any_expired, put, transition, move, includes_state, transitions,
}

-- Each intent is stored under its own id.
abbrev pub IsKeyed : JsMap WriteIntent → Type 0
IsKeyed [] = Unit
IsKeyed ((k, i) ∷ m) = (i.intent_id ≡ k) × IsKeyed m

-- The map is well formed, and the snapshot of a durable store is up to date.
pub record IsSound (s : IntentStore) : Type 0 where
  pub keyed : IsKeyed s.intents
  pub unique : HasUniqueKeys s.intents
  pub saved : s.durable ≡ true → or_nothing s.snapshot ≡ values s.intents

set-IsKeyed :
    (i : WriteIntent) (m : JsMap WriteIntent) → IsKeyed m → IsKeyed (JsMap.set i.intent_id i m)
unfolding JsMap.set
set-IsKeyed i [] k = (refl, tt)
set-IsKeyed i ((j, w) ∷ m) k = ground (arith, eq_iff j i.intent_id, set-IsKeyed i m k.1)

keep-IsKeyed :
    (p : WriteIntent → Bool) (m : JsMap WriteIntent) → IsKeyed m → IsKeyed (JsMap.keep p m)
unfolding JsMap.keep
keep-IsKeyed p [] k = tt
keep-IsKeyed p ((j, w) ∷ m) k = ground (arith, keep-IsKeyed p m k.1)

get-IsKeyed :
    (id : String) (i : WriteIntent) (m : JsMap WriteIntent)
    → IsKeyed m
    → JsMap.get id m ≡ some i
    → i.intent_id ≡ id
unfolding JsMap.get
get-IsKeyed id i [] k h = cc
get-IsKeyed id i ((j, w) ∷ m) k h = ground (arith, eq_iff j id, get-IsKeyed id i m k.1)

persist-IsSound :
    (s : IntentStore) → IsKeyed s.intents → HasUniqueKeys s.intents → IsSound (persist s)
unfolding persist
persist-IsSound s k u = elim (Bool-cases s.durable) [
  | inl yes_file ↦ rw yes_file (record { keyed = k; unique = u; saved = λ e. refl })
  | inr no_file ↦ rw no_file (record { keyed = k; unique = u; saved = λ e. cc })
]

keep_id :
    (now : ℕ) (m : JsMap WriteIntent)
    → any_expired now m ≡ false
    → JsMap.keep (λ i. not (leb i.expires_at now)) m ≡ m
unfolding JsMap.keep
keep_id now [] h = refl
keep_id now ((k, i) ∷ m) h = ground (arith, keep_id now m)

-- `put`, `transition` and `prune` keep the store sound.
pub put-IsSound : (i : WriteIntent) (s : IntentStore) → IsSound s → IsSound (put i s)
unfolding put
put-IsSound i s h =
    persist-IsSound (record s { intents = JsMap.set i.intent_id i s.intents })
      (set-IsKeyed i s.intents h.keyed) (set-HasUniqueKeys i.intent_id i s.intents h.unique)

pub prune-IsSound : (now : ℕ) (s : IntentStore) → IsSound s → IsSound (prune now s)
unfolding prune
prune-IsSound now s h = elim (Bool-cases (any_expired now s.intents)) [
  | inl some_gone ↦ rw some_gone (
      persist-IsSound
        (record s { intents = JsMap.keep (λ i. not (leb i.expires_at now)) s.intents })
        (keep-IsKeyed (λ i. not (leb i.expires_at now)) s.intents h.keyed)
        (keep-HasUniqueKeys (λ i. not (leb i.expires_at now)) s.intents h.unique))
  | inr none_gone ↦ rw (none_gone, keep_id now s.intents none_gone) h
]

set-IsKeyed_at :
    (id : String) (i : WriteIntent) (m : JsMap WriteIntent)
    → i.intent_id ≡ id
    → IsKeyed m
    → IsKeyed (JsMap.set id i m)
set-IsKeyed_at id i m e k = subst (λ j. IsKeyed (JsMap.set j i m)) e (set-IsKeyed i m k)

move-IsSound :
    (o : Option WriteIntent) (id : String) (target : WriteIntentState) (s : IntentStore)
    → JsMap.get id s.intents ≡ o
    → IsSound s
    → IsSound (move o id target s).1
unfolding move
move-IsSound none id target s e h = h
move-IsSound (some i) id target s e h =
    elim (Bool-cases (includes_state (transitions i.state) target)) [
      | inl legal ↦ rw legal (
          persist-IsSound
            (record s { intents = JsMap.set id (record i { state = target }) s.intents })
            (set-IsKeyed_at id (record i { state = target }) s.intents
              (get-IsKeyed id i s.intents h.keyed e) h.keyed)
            (set-HasUniqueKeys id (record i { state = target }) s.intents h.unique))
      | inr illegal ↦ rw illegal h
    ]

pub transition-IsSound :
    (id : String) (target : WriteIntentState) (s : IntentStore)
    → IsSound s
    → IsSound (transition id target s).1
unfolding transition
transition-IsSound id target s h = move-IsSound (JsMap.get id s.intents) id target s refl h

-- The first of two optional intents that is there.
abbrev or_else : Option WriteIntent → Option WriteIntent → Option WriteIntent
or_else none o = o
or_else (some i) o = some i

get-load_intents :
    (id : String) (m acc : JsMap WriteIntent)
    → IsKeyed m
    → HasUniqueKeys m
    → JsMap.get id (load_intents (values m) acc) ≡ or_else (JsMap.get id m) (JsMap.get id acc)
unfolding load_intents JsMap.get
get-load_intents id [] acc k u = refl
get-load_intents id ((j, i) ∷ m) acc k u =
    get-load_intents id m (JsMap.set i.intent_id i acc) k.1 u.1
    ∙ ground (arith, eq_iff j id, get-set i.intent_id id i acc)

-- What a store's file is loaded into has every intent of a sound, durable store, and no other.
pub find-open_store :
    (s : IntentStore) (id : String)
    → IsSound s
    → s.durable ≡ true
    → find id (open_store true s.snapshot) ≡ find id s
unfolding find open_store
find-open_store s id h d =
    rw (h.saved d)
      (get-load_intents id s.intents [] h.keyed h.unique ∙ (unfold JsMap.get in ground arith))

-- The operations that write to a store.
pub data StoreOp : Type 0 where
  put_op : WriteIntent → StoreOp
  transition_op : String → WriteIntentState → StoreOp
  prune_op : ℕ → StoreOp

pub apply_op : StoreOp → IntentStore → IntentStore
apply_op (put_op i) s = put i s
apply_op (transition_op id target) s = (transition id target s).1
apply_op (prune_op now) s = prune now s

pub apply_all : List StoreOp → IntentStore → IntentStore
apply_all [] s = s
apply_all (op ∷ ops) s = apply_all ops (apply_op op s)

apply_all-IsSound : (ops : List StoreOp) (s : IntentStore) → IsSound s → IsSound (apply_all ops s)
unfolding apply_all apply_op
apply_all-IsSound [] s h = h
apply_all-IsSound (put_op i ∷ ops) s h = apply_all-IsSound ops (put i s) (put-IsSound i s h)
apply_all-IsSound (transition_op id target ∷ ops) s h =
    apply_all-IsSound ops (transition id target s).1 (transition-IsSound id target s h)
apply_all-IsSound (prune_op now ∷ ops) s h =
    apply_all-IsSound ops (prune now s) (prune-IsSound now s h)

durable-persist : (s : IntentStore) → (persist s).durable ≡ s.durable
unfolding persist
durable-persist s = ground arith

durable-put : (i : WriteIntent) (s : IntentStore) → (put i s).durable ≡ s.durable
unfolding put
durable-put i s = durable-persist (record s { intents = JsMap.set i.intent_id i s.intents })

durable-transition :
    (id : String) (target : WriteIntentState) (s : IntentStore)
    → (transition id target s).1.durable ≡ s.durable
unfolding transition persist
durable-transition id target s = ground arith

durable-prune : (now : ℕ) (s : IntentStore) → (prune now s).durable ≡ s.durable
unfolding prune
durable-prune now s = ground arith

durable-apply_all : (ops : List StoreOp) (s : IntentStore) → (apply_all ops s).durable ≡ s.durable
unfolding apply_all apply_op
durable-apply_all [] s = refl
durable-apply_all (put_op i ∷ ops) s = durable-apply_all ops (put i s) ∙ durable-put i s
durable-apply_all (transition_op id target ∷ ops) s =
    durable-apply_all ops (transition id target s).1 ∙ durable-transition id target s
durable-apply_all (prune_op now ∷ ops) s = durable-apply_all ops (prune now s) ∙ durable-prune now s

open_store-IsSound : IsSound (open_store true none)
unfolding open_store load_intents
open_store-IsSound = record { keyed = tt; unique = tt; saved = λ e. refl }

-- Whatever is put, moved and pruned in a store that began on a missing file, the store that is
-- opened on its snapshot has the same intents.
pub find-reopened :
    (ops : List StoreOp) (id : String)
    → let s = apply_all ops (open_store true none) in
      find id (open_store true s.snapshot) ≡ find id s
find-reopened ops id =
    let s = open_store true none in
    find-open_store (apply_all ops s) id (apply_all-IsSound ops s open_store-IsSound)
      (durable-apply_all ops s ∙ (unfold open_store in refl))

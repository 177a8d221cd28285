-- ===== src/Write/Intents/Expiry.antt =====
-- Expiry of intents, and what may be listed.
use mathlib.Core.List.{Memᴰ}
use whmcs_mcp_server.Prelude.{
  Bool-cases, inl, inr, ℕ, String, ◌≡◌, not, Option, none, some, List, [], ◌∷◌, leb, arith, eq_iff,
  str_eq, ◌<◌, ap, ◌∙◌, sym, All,
}
use whmcs_mcp_server.Prelude.JsMap
use whmcs_mcp_server.Prelude.JsMap.{
  JsMap, HasUniqueKeys, get-keep, keep-HasUniqueKeys, get-set, set-HasUniqueKeys, guarded,
}
use whmcs_mcp_server.Write.Types.{WriteIntent}
use whmcs_mcp_server.Write.Intents.{IntentStore, find, prune, list_intents, of_consumer, values}

prune-intents :
    (now : ℕ) (s : IntentStore)
    → (prune now s).intents ≡ JsMap.keep (λ i. not (leb i.expires_at now)) s.intents
unfolding prune
prune-intents now s = ground arith

-- In a store with distinct ids, pruning drops exactly the intents that have expired.
pub find-prune :
    (now : ℕ) (s : IntentStore) (id : String)
    → HasUniqueKeys s.intents
    → find id (prune now s) ≡ guarded (λ i. not (leb i.expires_at now)) (find id s)
unfolding find
find-prune now s id u = rw prune-intents (get-keep (λ i. not (leb i.expires_at now)) id s.intents u)

-- What a consumer may list.
abbrev pub IsListable : ℕ → Option String → WriteIntent → Type 0
IsListable now none i = now < i.expires_at
IsListable now (some id) i = (now < i.expires_at) × (i.consumer_id ≡ id)

values-alive :
    (now : ℕ) (m : JsMap WriteIntent)
    → All (λ i. now < i.expires_at) (values (JsMap.keep (λ i. not (leb i.expires_at now)) m))
unfolding JsMap.keep
values-alive now [] = tt
values-alive now ((k, i) ∷ m) = ground (arith, values-alive now m)

of_consumer-All :
    (now : ℕ) (id : String) (is : List WriteIntent)
    → All (λ i. now < i.expires_at) is
    → All (IsListable now (some id)) (of_consumer (some id) is)
of_consumer-All now id [] a = tt
of_consumer-All now id (i ∷ is) (p, a) =
    ground (arith, eq_iff i.consumer_id id, of_consumer-All now id is a)

-- Every intent that is listed is unexpired, and is the consumer's where one is given.
pub list_intents-IsListable :
    (now : ℕ) (consumer_id : Option String) (s : IntentStore)
    → All (IsListable now consumer_id) (list_intents now consumer_id s).0
unfolding list_intents
list_intents-IsListable now none s = rw prune-intents (values-alive now s.intents)
list_intents-IsListable now (some id) s =
    of_consumer-All now id (values (prune now s).intents)
      (rw prune-intents (values-alive now s.intents))

mem-values :
    (id : String) (i : WriteIntent) (m : JsMap WriteIntent)
    → JsMap.get id m ≡ some i
    → Memᴰ i (values m)
unfolding JsMap.get
mem-values id i [] h = cc
mem-values id i ((k, j) ∷ m) h = elim (Bool-cases (str_eq k id)) [
  | inl same ↦ Memᴰ.head (ground arith)
  | inr other ↦ Memᴰ.tail (mem-values id i m (ground arith))
]

mem-of_consumer :
    (id : String) (i : WriteIntent) (is : List WriteIntent)
    → Memᴰ i is
    → i.consumer_id ≡ id
    → Memᴰ i (of_consumer (some id) is)
mem-of_consumer id i [] m own = elim m [ ]
mem-of_consumer id i (j ∷ is) (Memᴰ.head e) own =
    rw ((eq_iff j.consumer_id id).1 (ap (λ (x : WriteIntent). x.consumer_id) (sym e) ∙ own))
      (Memᴰ.head e)
mem-of_consumer id i (j ∷ is) (Memᴰ.tail m) own = elim (Bool-cases (str_eq j.consumer_id id)) [
  | inl same ↦ rw same (Memᴰ.tail (mem-of_consumer id i is m own))
  | inr other ↦ rw other (mem-of_consumer id i is m own)
]

mem-list_intents_all :
    (now : ℕ) (s : IntentStore) (id : String) (i : WriteIntent)
    → HasUniqueKeys s.intents
    → find id s ≡ some i
    → now < i.expires_at
    → Memᴰ i (values (prune now s).intents)
mem-list_intents_all now s id i u f alive =
    mem-values id i (prune now s).intents (unfold find in (find-prune now s id u ∙ ground arith))

-- In a store with distinct ids, every intent that is unexpired, and is the consumer's where one is
-- given, is listed, with its parameters.
pub mem-list_intents :
    (now : ℕ) (consumer_id : Option String) (s : IntentStore) (id : String) (i : WriteIntent)
    → HasUniqueKeys s.intents
    → find id s ≡ some i
    → IsListable now consumer_id i
    → Memᴰ i (list_intents now consumer_id s).0
unfolding list_intents
mem-list_intents now none s id i u f alive = mem-list_intents_all now s id i u f alive
mem-list_intents now (some c) s id i u f (alive, own) =
    mem-of_consumer c i (values (prune now s).intents) (mem-list_intents_all now s id i u f alive)
      own

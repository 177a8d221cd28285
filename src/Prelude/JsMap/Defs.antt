-- ===== src/Prelude/JsMap/Defs.antt =====
-- JavaScript's `Map` with text keys, as the list of its entries in insertion order.
use Prim.Native.Nat.{ℕ}
use Prim.Native.String.{String}
use mathlib.Core.Path.{◌≡◌}
use mathlib.Core.Bool.{Bool}
use mathlib.Core.Option.{Option, none, some}
use mathlib.Core.List.{List, [], ◌∷◌}
use text.Mathlib.Text.{◌==◌ as str_eq}
use whmcs_mcp_server.Prelude.Tests.{if◌then◌else◌, ltb}
use whmcs_mcp_server.Prelude.Lists.{length}

abbrev pub JsMap {ℓ} : Type ℓ → Type ℓ
JsMap V = List (String × V)

-- What is left of an optional value that must pass a test.
abbrev pub guarded {ℓ} : {V : Type ℓ} → (V → Bool) → Option V → Option V
guarded p none = none
guarded p (some v) = if p v then some v else none

module _ {ℓ} {V : Type ℓ} where
  unfoldable pub get : String → JsMap V → Option V
  get k [] = none
  get k ((j, v) ∷ m) = if str_eq j k then some v else get k m

  -- A key that is there keeps its place.
  unfoldable pub set : String → V → JsMap V → JsMap V
  set k v [] = (k, v) ∷ []
  set k v ((j, w) ∷ m) = if str_eq j k then (j, v) ∷ m else (j, w) ∷ set k v m

  unfoldable pub delete : String → JsMap V → JsMap V
  delete k [] = []
  delete k ((j, w) ∷ m) = let rest = delete k m in if str_eq j k then rest else (j, w) ∷ rest

  -- A loop that deletes every entry whose value fails the test.
  unfoldable pub keep : (V → Bool) → JsMap V → JsMap V
  keep p [] = []
  keep p ((j, w) ∷ m) = let rest = keep p m in if p w then (j, w) ∷ rest else rest

  -- A loop that deletes the oldest entry while there are more than `most`.
  unfoldable pub evict : ℕ → JsMap V → JsMap V
  evict most [] = []
  evict most (e ∷ m) = let rest = evict most m in if ltb most (length (e ∷ m)) then rest else e ∷ m

  -- The keys of a `Map` are distinct.
  abbrev pub HasUniqueKeys : JsMap V → Type ℓ
  HasUniqueKeys [] = Unit
  HasUniqueKeys ((k, v) ∷ m) = (get k m ≡ none) × HasUniqueKeys m

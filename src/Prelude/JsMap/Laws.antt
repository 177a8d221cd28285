-- ===== src/Prelude/JsMap/Laws.antt =====
-- What a `Map` answers after each operation, its size, and that its keys stay distinct.
use Prim.Native.Nat.{ℕ, ◌≤◌}
use Prim.Native.String.{String}
use mathlib.Core.Path.{◌≡◌, refl}
use mathlib.Core.Bool.{Bool}
use mathlib.Core.Option.{none, some}
use mathlib.Core.List.{[], ◌∷◌}
use native.Mathlib.Omega.{arith}
use text.Mathlib.Text.{◌==◌ as str_eq}
use text.Mathlib.TextEquality.{eq_iff}
use whmcs_mcp_server.Prelude.Tests.{if◌then◌else◌}
use whmcs_mcp_server.Prelude.Lists.{length}
use whmcs_mcp_server.Prelude.JsMap.Defs.{
  JsMap, guarded, HasUniqueKeys, get, set, delete, keep, evict,
}

module _ {ℓ} {V : Type ℓ} where
  pub get-set :
      (k j : String) (v : V) (m : JsMap V)
      → get j (set k v m) ≡ (if str_eq k j then some v else get j m)
  unfolding get set
  get-set k j v [] = refl
  get-set k j v ((i, w) ∷ m) = ground (arith, eq_iff k j, eq_iff i k, eq_iff i j, get-set k j v m)

  pub get-delete :
      (k j : String) (m : JsMap V) → get j (delete k m) ≡ (if str_eq k j then none else get j m)
  unfolding get delete
  get-delete k j [] = ground arith
  get-delete k j ((i, w) ∷ m) = ground (arith, eq_iff k j, eq_iff i k, eq_iff i j, get-delete k j m)

  pub get-keep-none :
      (p : V → Bool) (k : String) (m : JsMap V) → get k m ≡ none → get k (keep p m) ≡ none
  unfolding get keep
  get-keep-none p k [] h = refl
  get-keep-none p k ((i, w) ∷ m) h = ground (arith, get-keep-none p k m)

  pub get-keep :
      (p : V → Bool) (k : String) (m : JsMap V)
      → HasUniqueKeys m
      → get k (keep p m) ≡ guarded p (get k m)
  unfolding get keep
  get-keep p k [] u = refl
  get-keep p k ((i, w) ∷ m) u = ground (arith, eq_iff i k, get-keep p k m u.1, get-keep-none p k m)

  pub get-evict-none :
      (most : ℕ) (k : String) (m : JsMap V) → get k m ≡ none → get k (evict most m) ≡ none
  unfolding get evict
  get-evict-none most k [] h = refl
  get-evict-none most k ((i, w) ∷ m) h = ground (arith, get-evict-none most k m)

  pub set-HasUniqueKeys :
      (k : String) (v : V) (m : JsMap V) → HasUniqueKeys m → HasUniqueKeys (set k v m)
  unfolding get set
  set-HasUniqueKeys k v [] u = (refl, tt)
  set-HasUniqueKeys k v ((i, w) ∷ m) u =
      ground (arith, eq_iff i k, eq_iff k i, get-set k i v m, set-HasUniqueKeys k v m u.1)

  pub delete-HasUniqueKeys :
      (k : String) (m : JsMap V) → HasUniqueKeys m → HasUniqueKeys (delete k m)
  unfolding get delete
  delete-HasUniqueKeys k [] u = tt
  delete-HasUniqueKeys k ((i, w) ∷ m) u =
      ground (arith, get-delete k i m, delete-HasUniqueKeys k m u.1)

  pub keep-HasUniqueKeys : (p : V → Bool) (m : JsMap V) → HasUniqueKeys m → HasUniqueKeys (keep p m)
  unfolding keep
  keep-HasUniqueKeys p [] u = tt
  keep-HasUniqueKeys p ((i, w) ∷ m) u =
      ground (arith, get-keep-none p i m u.0, keep-HasUniqueKeys p m u.1)

  pub evict-HasUniqueKeys :
      (most : ℕ) (m : JsMap V) → HasUniqueKeys m → HasUniqueKeys (evict most m)
  unfolding evict
  evict-HasUniqueKeys most [] u = tt
  evict-HasUniqueKeys most ((i, w) ∷ m) u = ground (arith, evict-HasUniqueKeys most m u.1)

  pub length-evict : (most : ℕ) (m : JsMap V) → length (evict most m) ≤ most
  unfolding evict
  length-evict most [] = omega arith
  length-evict most (e ∷ m) = ground (arith, length-evict most m)

  -- Eviction removes nothing while there is room.
  pub evict_id : (most : ℕ) (m : JsMap V) → length m ≤ most → evict most m ≡ m
  unfolding evict
  evict_id most [] h = refl
  evict_id most (e ∷ m) h = ground arith

  pub length-keep : (p : V → Bool) (m : JsMap V) → length (keep p m) ≤ length m
  unfolding keep
  length-keep p [] = omega arith
  length-keep p (e ∷ m) = ground (arith, length-keep p m)

  pub length-delete : (k : String) (m : JsMap V) → length (delete k m) ≤ length m
  unfolding delete
  length-delete k [] = omega arith
  length-delete k (e ∷ m) = ground (arith, length-delete k m)

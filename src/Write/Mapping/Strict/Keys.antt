-- ===== src/Write/Mapping/Strict/Keys.antt =====
-- src/write/paramMapping.ts: the keys of an object while it is built.
use whmcs_mcp_server.Prelude.{
  ℕ, suc, String, ◌≡◌, Bool, true, false, Option, none, some, List, [], ◌∷◌, ◌⊕◌, arith, all,
  includes, if◌then◌else◌,
}
use whmcs_mcp_server.Prelude.JsMap
use whmcs_mcp_server.Json.{Json, Fields, property}
use whmcs_mcp_server.Write.Mapping.Values.{
  Js, Output, set_present, pick_into, pick_fields, as_record,
}
use whmcs_mcp_server.Write.Mapping.Billing.{flatten_item, flatten_items, taxed_flag}
use whmcs_mcp_server.Write.Mapping.Domains.{set_hosts, copy_hosts, clean_host, clean_text_host}

-- Every key of an object satisfies a predicate.
abbrev pub HasKeys : (String → Type 0) → Output → Type 0
HasKeys P [] = Unit
HasKeys P ((k, v) ∷ out) = P k × HasKeys P out

-- A key that stands in a table.
abbrev pub IsIn : List String → String → Type 0
IsIn table k = includes table k ≡ true

abbrev pub keys : Output → List String
keys [] = []
keys ((k, v) ∷ out) = k ∷ keys out

-- The keys of a flattened invoice item.
pub data IsItemKey (js : Js) : String → Type 0 where
  description : (idx : ℕ) → IsItemKey js ("itemdescription" ⊕ js.show idx)
  amount : (idx : ℕ) → IsItemKey js ("itemamount" ⊕ js.show idx)
  taxed : (idx : ℕ) → IsItemKey js ("itemtaxed" ⊕ js.show idx)

module _ (P : String → Type 0) where
  pub HasKeys-set :
      (k : String) (v : Option Json) (out : Output)
      → P k
      → HasKeys P out
      → HasKeys P (JsMap.set k v out)
  unfolding JsMap.set
  HasKeys-set k v [] h u = (h, tt)
  HasKeys-set k v ((j, w) ∷ out) h u = ground (arith, HasKeys-set k v out h u.1)

  pub HasKeys-set_present :
      (k : String) (v : Option Json) (out : Output)
      → P k
      → HasKeys P out
      → HasKeys P (set_present k v out)
  HasKeys-set_present k none out h u = u
  HasKeys-set_present k (some v) out h u = HasKeys-set k (some v) out h u

  module _ (js : Js) where
    HasKeys-flatten_item :
        ((k : String) → IsItemKey js k → P k)
        → (idx : ℕ) (it : Fields) (out : Output) → HasKeys P out
        → HasKeys P (flatten_item js idx it out)
    unfolding flatten_item
    HasKeys-flatten_item f idx it out u =
        HasKeys-set_present ("itemtaxed" ⊕ js.show idx) (taxed_flag (property "taxed" it)) _
          (f _ (IsItemKey.taxed idx))
          (HasKeys-set ("itemamount" ⊕ js.show idx) (property "amount" it) _
            (f _ (IsItemKey.amount idx))
            (HasKeys-set ("itemdescription" ⊕ js.show idx) (property "description" it) out
              (f _ (IsItemKey.description idx)) u))

    pub HasKeys-flatten_items :
        ((k : String) → IsItemKey js k → P k)
        → (idx : ℕ) (vs : List Json) (out : Output) → HasKeys P out
        → HasKeys P (flatten_items js idx vs out)
    unfolding flatten_items
    HasKeys-flatten_items f idx [] out u = u
    HasKeys-flatten_items f idx (v ∷ vs) out u =
        HasKeys-flatten_items f (suc idx) vs (flatten_item js idx (as_record v) out)
          (HasKeys-flatten_item f idx (as_record v) out u)

pub HasKeys-if :
    (P : String → Type 0) (b : Bool) (x y : Output)
    → HasKeys P x
    → HasKeys P y
    → HasKeys P (if b then x else y)
HasKeys-if P true x y u w = u
HasKeys-if P false x y u w = w

pub HasKeys-weaken :
    (P Q : String → Type 0) (out : Output)
    → ((k : String) → P k → Q k)
    → HasKeys P out
    → HasKeys Q out
HasKeys-weaken P Q [] f u = tt
HasKeys-weaken P Q ((k, v) ∷ out) f (p, u) = (f k p, HasKeys-weaken P Q out f u)

module _ (table : List String) where
  -- An object whose keys are written out.
  pub HasKeys-keys :
      (out : Output) → all (includes table) (keys out) ≡ true → HasKeys (IsIn table) out
  HasKeys-keys [] h = tt
  HasKeys-keys ((k, v) ∷ out) h = (ground arith, HasKeys-keys out (ground arith))

  pub HasKeys-pick_into :
      (params : Fields) (allow : List String) (out : Output)
      → all (includes table) allow ≡ true
      → HasKeys (IsIn table) out
      → HasKeys (IsIn table) (pick_into params allow out)
  unfolding pick_into
  HasKeys-pick_into params [] out h u = u
  HasKeys-pick_into params (k ∷ allow) out h u =
      HasKeys-pick_into params allow (set_present k (property k params) out) (ground arith)
        (HasKeys-set_present (IsIn table) k (property k params) out (ground arith) u)

  pub HasKeys-pick_fields :
      (params : Fields) (allow : List String)
      → all (includes table) allow ≡ true
      → HasKeys (IsIn table) (pick_fields params allow)
  unfolding pick_fields
  HasKeys-pick_fields params allow h = HasKeys-pick_into params allow [] h tt

  module _ (js : Js) where
    pub HasKeys-set_hosts :
        (hosts : List String) (vs : List Json) (out : Output)
        → all (includes table) hosts ≡ true
        → HasKeys (IsIn table) out
        → HasKeys (IsIn table) (set_hosts js hosts vs out)
    unfolding set_hosts
    HasKeys-set_hosts [] vs out h u = u
    HasKeys-set_hosts (k ∷ hosts) [] out h u = u
    HasKeys-set_hosts (k ∷ hosts) (v ∷ vs) out h u =
        HasKeys-set_hosts hosts vs (JsMap.set k (some (clean_host js v)) out) (ground arith)
          (HasKeys-set (IsIn table) k (some (clean_host js v)) out (ground arith) u)

    pub HasKeys-copy_hosts :
        (params : Fields) (hosts : List String) (out : Output)
        → all (includes table) hosts ≡ true
        → HasKeys (IsIn table) out
        → HasKeys (IsIn table) (copy_hosts js params hosts out)
    unfolding copy_hosts
    HasKeys-copy_hosts params [] out h u = u
    HasKeys-copy_hosts params (k ∷ hosts) out h u =
        let v = clean_text_host js (property k params) in
        HasKeys-copy_hosts params hosts (set_present k v out) (ground arith)
          (HasKeys-set_present (IsIn table) k v out (ground arith) u)

-- ===== src/Write/DayAmounts/Restart.antt =====
-- The tally of the day across a restart.
use whmcs_mcp_server.Prelude.{
  ℤ, ◌+ℤ◌, pos, String, ◌≡◌, refl, sym, ◌∙◌, ap, Option, none, some, List, [], ◌∷◌, ◌++◌,
  Bool-cases, inl, inr, str_eq, eq_refl,
}
use whmcs_mcp_server.Prelude.JsMap
use whmcs_mcp_server.Prelude.JsMap.{JsMap, get-set}
use whmcs_mcp_server.Prelude.JsNumber.{JsNumber, finite, plus}
use whmcs_mcp_server.Write.DayAmounts.{
  DayAmountsRecord, DayAmountsStore, day_key, get_total, add, load_record, load_records,
  open_amounts, or_zero, set_total,
}

-- Amounts added on one day, with their actions, in order.
unfoldable pub add_all : List (String × ℤ) → String → DayAmountsStore → DayAmountsStore
add_all [] today s = s
add_all ((action, amount) ∷ rest) today s = add_all rest today (add action (finite amount) today s)

abbrev IsFiniteOr : Option JsNumber → Type 0
IsFiniteOr none = Unit
IsFiniteOr (some (finite a)) = Unit
IsFiniteOr (some _) = ⊥

-- The store holds what its file says of the day.
record IsLoaded (today : String) (rs : List (Option DayAmountsRecord)) (s : DayAmountsStore)
    : Type 0 where
  file : s.file ≡ some rs
  totals : (k : String) → JsMap.get k s.totals ≡ JsMap.get k (load_records today rs [])
  finite_totals : (k : String) → IsFiniteOr (JsMap.get k s.totals)

load_records-append :
    (today : String) (rs : List (Option DayAmountsRecord)) (r : Option DayAmountsRecord)
    (m : JsMap JsNumber)
    → load_records today (rs ++ r ∷ []) m ≡ load_record today r (load_records today rs m)
unfolding load_records
load_records-append today [] r m = refl
load_records-append today (q ∷ rs) r m = load_records-append today rs r (load_record today q m)

set-IsFiniteOr :
    (key : String) (t : ℤ) (m : JsMap JsNumber)
    → ((k : String) → IsFiniteOr (JsMap.get k m))
    → (k : String) → IsFiniteOr (JsMap.get k (JsMap.set key (finite t) m))
set-IsFiniteOr key t m h k = elim (Bool-cases (str_eq key k)) [
  | inl same ↦ rw (get-set key k (finite t) m, same) tt
  | inr other ↦ rw (get-set key k (finite t) m, other) (h k)
]

set_total-IsFiniteOr :
    (key : String) (o : Option ℤ) (m : JsMap JsNumber)
    → ((k : String) → IsFiniteOr (JsMap.get k m))
    → (k : String) → IsFiniteOr (JsMap.get k (set_total key o m))
set_total-IsFiniteOr key none m h k = h k
set_total-IsFiniteOr key (some t) m h k = set-IsFiniteOr key t m h k

load_record-IsFiniteOr :
    (today : String) (r : Option DayAmountsRecord) (m : JsMap JsNumber)
    → ((k : String) → IsFiniteOr (JsMap.get k m))
    → (k : String) → IsFiniteOr (JsMap.get k (load_record today r m))
unfolding load_record
load_record-IsFiniteOr today none m h k = h k
load_record-IsFiniteOr today (some r) m h k = elim (Bool-cases (str_eq r.date today)) [
  | inl same ↦ rw same (set_total-IsFiniteOr r.key r.total m h k)
  | inr other ↦ rw other (h k)
]

load_records-IsFiniteOr :
    (today : String) (rs : List (Option DayAmountsRecord)) (m : JsMap JsNumber)
    → ((k : String) → IsFiniteOr (JsMap.get k m))
    → (k : String) → IsFiniteOr (JsMap.get k (load_records today rs m))
unfolding load_records
load_records-IsFiniteOr today [] m h k = h k
load_records-IsFiniteOr today (r ∷ rs) m h k =
    load_records-IsFiniteOr today rs (load_record today r m) (load_record-IsFiniteOr today r m h) k

-- A finite amount on a finite total is finite.
abbrev total_of : Option JsNumber → ℤ → ℤ
total_of (some (finite t)) a = t +ℤ a
total_of _ a = pos 0 +ℤ a

plus-total_of :
    (o : Option JsNumber) (a : ℤ)
    → IsFiniteOr o
    → plus (or_zero o) (finite a) ≡ finite (total_of o a)
unfolding plus
plus-total_of none a h = refl
plus-total_of (some (finite t)) a h = refl
plus-total_of (some JsNumber.nan) a h = elim h [ ]
plus-total_of (some JsNumber.infinity) a h = elim h [ ]
plus-total_of (some JsNumber.neg_infinity) a h = elim h [ ]

set-agrees :
    (key : String) (v : JsNumber) (m n : JsMap JsNumber)
    → ((k : String) → JsMap.get k m ≡ JsMap.get k n)
    → (k : String) → JsMap.get k (JsMap.set key v m) ≡ JsMap.get k (JsMap.set key v n)
set-agrees key v m n h k = rw (get-set key k v m, get-set key k v n, h k) refl

-- The line that an addition appends.
abbrev line_of : String → String → ℤ → DayAmountsStore → DayAmountsRecord
line_of today action amount s = record {
  key = day_key action today;
  total = some (total_of (JsMap.get (day_key action today) s.totals) amount);
  date = today;
}

load-line_of :
    (today action : String) (amount : ℤ) (s : DayAmountsStore) (m : JsMap JsNumber)
    → load_record today (some (line_of today action amount s)) m
      ≡ JsMap.set
          (day_key action today)
          (finite (total_of (JsMap.get (day_key action today) s.totals) amount))
          m
unfolding load_record
load-line_of today action amount s m = rw (eq_refl today) refl

add-IsLoaded :
    (today action : String) (amount : ℤ) (rs : List (Option DayAmountsRecord)) (s : DayAmountsStore)
    → IsLoaded today rs s
    → IsLoaded today
        (rs ++ some (line_of today action amount s) ∷ [])
        (add action (finite amount) today s)
unfolding add
add-IsLoaded today action amount rs s i =
    let key = day_key action today in
    let next = plus-total_of (JsMap.get key s.totals) amount (i.finite_totals key) in
    let line = line_of today action amount s in
    rw next (record {
      file = rw i.file;
      totals = λ k.
          set-agrees key (finite (total_of (JsMap.get key s.totals) amount)) s.totals
            (load_records today rs []) i.totals k
          ∙ ap (λ m. JsMap.get k m)
              (sym (
                load_records-append today rs (some line) []
                ∙ load-line_of today action amount s (load_records today rs [])));
      finite_totals =
          set-IsFiniteOr key (total_of (JsMap.get key s.totals) amount) s.totals i.finite_totals;
    })

-- Some file is what the store has loaded.
abbrev Loaded : String → DayAmountsStore → Type 0
Loaded today s = (rs : List (Option DayAmountsRecord)) × IsLoaded today rs s

add_all-Loaded :
    (today : String) (amounts : List (String × ℤ)) (s : DayAmountsStore)
    → Loaded today s
    → Loaded today (add_all amounts today s)
unfolding add_all
add_all-Loaded today [] s l = l
add_all-Loaded today ((action, amount) ∷ rest) s (rs, i) =
    add_all-Loaded today rest (add action (finite amount) today s)
      (rs ++ some (line_of today action amount s) ∷ [], add-IsLoaded today action amount rs s i)

open_amounts-IsLoaded :
    (today : String) (rs : List (Option DayAmountsRecord))
    → IsLoaded today rs (open_amounts today (some rs))
unfolding open_amounts
open_amounts-IsLoaded today rs = record {
  file = refl;
  totals = λ k. refl;
  finite_totals = load_records-IsFiniteOr today rs [] (λ k. unfold JsMap.get in tt);
}

-- On any file, when finite amounts are added on the day on which the store was opened, a store that
-- is opened on the file again on that day has the same total for every action.
pub get_total-restart :
    (today action : String) (rs : List (Option DayAmountsRecord)) (amounts : List (String × ℤ))
    → let s = add_all amounts today (open_amounts today (some rs)) in
      get_total action today (open_amounts today s.file) ≡ get_total action today s
unfolding get_total open_amounts
get_total-restart today action rs amounts =
    let s = add_all amounts today (open_amounts today (some rs)) in
    let (lines, i) =
      add_all-Loaded today amounts (open_amounts today (some rs))
        (rs, open_amounts-IsLoaded today rs) in
    rw i.file (ap or_zero (sym (i.totals (day_key action today))))

-- ===== src/Contracts/Json.antt =====
-- JSON columns (task event details, run metadata, results). Numbers are whole and not negative, and
-- `moment` is a text in ISO format, with the moment that it names.
use codegen_orchestrator.Prelude.{
  ℕ, zero, suc, String, Bool, true, false, ◌&&◌, Option, none, some, List, [], ◌∷◌, ◌≡◌, arith,
  ◌==◌, ◌=ₛ◌, eq_iff, if◌then◌else◌,
}

mutual
  pub data Json : Type 0 where
    null : Json
    boolean : Bool → Json
    number : ℕ → Json
    text : String → Json
    moment : ℕ → Json
    array : Items → Json
    object : Fields → Json

  pub data Items : Type 0 where
    end_items : Items
    item : Json → Items → Items

  pub data Fields : Type 0 where
    end_fields : Fields
    field : String → Json → Fields → Fields

-- Python's truth value of a JSON value.
unfoldable pub truthy : Json → Bool
truthy null = false
truthy (boolean b) = b
truthy (number zero) = false
truthy (number (suc n)) = true
truthy (text s) = if s =ₛ "" then false else true
truthy (moment t) = true
truthy (array end_items) = false
truthy (array (item x xs)) = true
truthy (object end_fields) = false
truthy (object (field k v f)) = true

unfoldable pub lookup_field : String → Fields → Option Json
lookup_field k end_fields = none
lookup_field k (field j v f) = if j =ₛ k then some v else lookup_field k f

size : Fields → ℕ
size end_fields = 0
size (field k v f) = suc (size f)

abbrev as_number : Bool → ℕ
as_number true = 1
as_number false = 0

-- Python's `==` on JSON values: a truth value equals the number 0 or 1, and objects are compared
-- without regard to the order of their fields.
unfoldable mutual
  unfolding lookup_field size

  pub json_eq : Json → Json → Bool
  json_eq null null = true
  json_eq (boolean a) (boolean b) = as_number a == as_number b
  json_eq (boolean a) (number n) = as_number a == n
  json_eq (number n) (boolean b) = n == as_number b
  json_eq (number m) (number n) = m == n
  json_eq (text s) (text t) = s =ₛ t
  json_eq (moment s) (moment t) = s == t
  json_eq (array xs) (array ys) = items_eq xs ys
  json_eq (object f) (object g) = fields_within f g && size f == size g
  json_eq _ _ = false

  pub items_eq : Items → Items → Bool
  items_eq end_items end_items = true
  items_eq (item x xs) (item y ys) = json_eq x y && items_eq xs ys
  items_eq _ _ = false

  pub fields_within : Fields → Fields → Bool
  fields_within end_fields g = true
  fields_within (field k v f) g =
      elim (lookup_field k g) [ none ↦ false | some w ↦ json_eq v w ] && fields_within f g

-- A JSON object that the code itself reads and writes.
abbrev pub Dict : Type 0
Dict = List (String × Json)

-- `d.get(k)`
unfoldable pub get : String → Dict → Option Json
get k [] = none
get k ((j, v) ∷ d) = if j =ₛ k then some v else get k d

-- `{**d, k: v}`
unfoldable pub put : String → Json → Dict → Dict
put k v [] = (k, v) ∷ []
put k v ((j, w) ∷ d) = if j =ₛ k then (k, v) ∷ d else (j, w) ∷ put k v d

-- `{**d, **e}`
unfoldable pub merge : Dict → Dict → Dict
merge d [] = d
merge d ((k, v) ∷ e) = merge (put k v d) e

pub get-put :
    (k j : String) (v : Json) (d : Dict) → get j (put k v d) ≡ (if k =ₛ j then some v else get j d)
unfolding get put
get-put k j v [] = ground arith
get-put k j v ((i, w) ∷ d) = ground (arith, get-put k j v d, eq_iff i k, eq_iff i j, eq_iff k j)

-- Keys that the second dictionary does not name keep their values.
pub get-merge_other : (j : String) (d e : Dict) → get j e ≡ none → get j (merge d e) ≡ get j d
unfolding get merge
get-merge_other j d [] h = ground arith
get-merge_other j d ((k, v) ∷ e) h =
    ground (arith, get-merge_other j (put k v d) e, get-put k j v d)

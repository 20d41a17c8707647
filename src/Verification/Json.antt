-- ===== src/Verification/Json.antt =====
-- JSON values as Python reads them: truth, `dict.get`, `str`, and the lists that the code walks.
use Prim.Native.String.{String}
use tandem_agents.Prelude.{
  String, ◌≡◌, Bool, true, false, not, ◌&&◌, Option, none, some, arith, str_eq, eq_iff, eq_refl,
  if◌then◌else◌,
}

-- A number is kept by whether it is zero and by its text.
mutual
  pub data Json : Type 0 where
    null : Json
    boolean : Bool → Json
    number : (is_zero : Bool) → String → Json
    text : String → Json
    array : Items → Json
    object : Fields → Json

  pub data Items : Type 0 where
    nil : Items
    cons : Json → Items → Items

  pub data Fields : Type 0 where
    end : Fields
    field : String → Json → Fields → Fields

-- bool(value)
unfoldable pub truthy : Json → Bool
truthy null = false
truthy (boolean b) = b
truthy (number is_zero s) = not is_zero
truthy (text s) = not (str_eq s "")
truthy (array nil) = false
truthy (array (cons x xs)) = true
truthy (object end) = false
truthy (object (field k v d)) = true

-- `a or b`
unfoldable pub json_or : Json → Json → Json
unfolding truthy
json_or a b = if truthy a then a else b

-- d.get(k)
unfoldable pub get_field : String → Fields → Json
get_field k end = null
get_field k (field j v d) = let rest = get_field k d in if str_eq k j then v else rest

-- k in d
unfoldable pub has_field : String → Fields → Bool
has_field k end = false
has_field k (field j v d) = let rest = has_field k d in if str_eq k j then true else rest

-- d[k] = v
unfoldable pub set_field : String → Json → Fields → Fields
set_field k v end = field k v end
set_field k v (field j w d) =
    let rest = set_field k v d in if str_eq k j then field j v d else field j w rest

-- str(value), where `show` writes a list or a dictionary.
unfoldable pub str : (Json → String) → Json → String
str show null = "None"
str show (boolean true) = "True"
str show (boolean false) = "False"
str show (number is_zero s) = s
str show (text s) = s
str show (array xs) = show (array xs)
str show (object d) = show (object d)

-- any(test(item) for item in items)
unfoldable pub any_item : (Json → Bool) → Items → Bool
any_item p nil = false
any_item p (cons x xs) = let rest = any_item p xs in if p x then true else rest

unfoldable pub all_values : (Json → Bool) → Fields → Bool
all_values p end = true
all_values p (field k v d) = p v && all_values p d

unfoldable pub append_items : Items → Items → Items
append_items nil ys = ys
append_items (cons x xs) ys = cons x (append_items xs ys)

-- list(value or []), with no result where Python raises a TypeError. Of a text or a dictionary it is
-- a list of texts, which the callers skip; they are left out of it.
unfoldable pub list_of : Json → Option Items
unfolding truthy
list_of (array xs) = some xs
list_of (text s) = some nil
list_of (object d) = some nil
list_of null = some nil
list_of (boolean b) = if b then none else some nil
list_of (number is_zero s) = if is_zero then some nil else none

-- A test of the entry `k` of an item that is a dictionary; other items fail it.
unfoldable pub item_field : (Json → Bool) → String → Json → Bool
unfolding get_field
item_field p k (object d) = p (get_field k d)
item_field p k null = false
item_field p k (boolean b) = false
item_field p k (number is_zero s) = false
item_field p k (text s) = false
item_field p k (array xs) = false

pub get-set_other :
    (k j : String) (v : Json) (d : Fields)
    → str_eq k j ≡ false
    → get_field k (set_field j v d) ≡ get_field k d
unfolding get_field set_field
get-set_other k j v end h = rw h
get-set_other k j v (field i w d) h =
    ground (arith, eq_iff k i, eq_iff j i, eq_iff k j, get-set_other k j v d h)

pub get-set : (k : String) (v : Json) (d : Fields) → get_field k (set_field k v d) ≡ v
unfolding get_field set_field
get-set k v end = rw eq_refl
get-set k v (field i w d) = ground (arith, eq_iff k i, eq_refl k, get-set k v d)

pub has-set : (k : String) (v : Json) (d : Fields) → has_field k (set_field k v d) ≡ true
unfolding has_field set_field
has-set k v end = rw eq_refl
has-set k v (field i w d) = ground (arith, eq_iff k i, eq_refl k, has-set k v d)

-- ===== src/Json.antt =====
-- `serde_json::Value` and what the server reads of it. The order of an object's fields is not
-- modelled; printing and parsing are parameters of the modules that call them.
use orange_frp.Prelude.{
  ℕ, ◌^◌, ◌≡◌, ◌≢◌, Bool, Option, none, some, arith, ltb, if◌then◌else◌, ◌==◌, nat_eq, list_eq,
  list_beq_iff, pair_eq, Text,
}

-- `serde_json::Number`: a `u64`, the two's complement of a negative `i64`, or the bits of an `f64`.
pub data Number : Type 0 where
  pos_int neg_int float : ℕ → Number

mutual
  pub data Value : Type 0 where
    null : Value
    bool : Bool → Value
    num : Number → Value
    str : Text → Value
    arr : Items → Value
    obj : Fields → Value

  pub data Items : Type 0 where
    nil : Items
    cons : Value → Items → Items

  pub data Fields : Type 0 where
    end : Fields
    field : Text → Value → Fields → Fields

-- `Map::get`.
unfoldable pub get_field : Text → Fields → Option Value
get_field k end = none
get_field k (field j v m) = if j == k then some v else get_field k m

-- `Value::get` with a key.
unfoldable pub get : Value → Text → Option Value
unfolding get_field
get (obj m) k = get_field k m
get _ k = none

unfoldable pub as_str : Value → Option Text
as_str (str s) = some s
as_str _ = none

-- The two's complement of an `i64`.
unfoldable pub as_i64 : Value → Option ℕ
as_i64 (num (pos_int n)) = if ltb n (2 ^ 63) then some n else none
as_i64 (num (neg_int n)) = some n
as_i64 _ = none

unfoldable pub as_u64 : Value → Option ℕ
as_u64 (num (pos_int n)) = some n
as_u64 _ = none

abbrev pub and_then {ℓ κ} : {A : Type ℓ} {B : Type κ} → Option A → (A → Option B) → Option B
and_then none f = none
and_then (some a) f = f a

-- `value.get(key).and_then(Value::as_str)`.
unfoldable pub get_str : Value → Text → Option Text
unfolding get as_str
get_str v k = and_then (get v k) as_str

-- `map.entry(key).or_insert(value)`.
unfoldable pub or_insert : Text → Value → Fields → Fields
or_insert k v end = field k v end
or_insert k v (field j w m) = if j == k then field j w m else field j w (or_insert k v m)

pub get_field-or_insert :
    (k : Text) (v : Value) (m : Fields)
    → get_field k m ≡ none
    → get_field k (or_insert k v m) ≡ some v
unfolding get_field or_insert
get_field-or_insert k v end h = ground (arith, list_beq_iff k k)
get_field-or_insert k v (field j w m) h = ground (arith, get_field-or_insert k v m)

pub get_field-or_insert_ne :
    (k j : Text) (v : Value) (m : Fields) → k ≢ j → get_field j (or_insert k v m) ≡ get_field j m
unfolding get_field or_insert
get_field-or_insert_ne k j v end h = ground (arith, list_beq_iff k j)
get_field-or_insert_ne k j v (field i w m) h =
    ground (arith, get_field-or_insert_ne k j v m, list_beq_iff k j, list_beq_iff i j)

-- ===== src/Value/Equal.antt =====
-- `deepEqual` of src/messaging/bus.ts.
use deputy_agent.Prelude.{
  ℕ, zero, suc, ◌/◌, ◌%◌, ◌==◌, ltb, String, ℤ, pos, negsuc, Bool, true, false, ◌&&◌, str_eq,
  if◌then◌else◌, str_append,
}
use deputy_agent.Value.{
  Value, undefined, null, bool, int, float, str, arr, obj, Items, nil, cons, Fields, end, field,
  property,
}

unfoldable pub digit : ℕ → String
digit n =
    if n == 0
    then "0"
    else if n == 1
    then "1"
    else if n == 2
    then "2"
    else if n == 3
    then "3"
    else if n == 4
    then "4"
    else if n == 5
    then "5"
    else if n == 6
    then "6"
    else if n == 7
    then "7"
    else if n == 8
    then "8"
    else "9"

-- the decimal numeral of `n`, with more rounds than it has digits
unfoldable pub decimal_in : ℕ → ℕ → String
unfolding digit
decimal_in zero n = ""
decimal_in (suc rounds) n =
    let higher = decimal_in rounds (n / 10) in
    if ltb n 10 then digit n else str_append higher (digit (n % 10))

-- an array's index as a property key
unfoldable pub index_key : ℕ → String
unfolding decimal_in
index_key n = decimal_in (suc n) n

unfoldable pub count_items : Items → ℕ
count_items nil = 0
count_items (cons v vs) = suc (count_items vs)

unfoldable pub count_fields : Fields → ℕ
count_fields end = 0
count_fields (field k v fs) = suc (count_fields fs)

-- `a[k]` of an array whose first element has index `i`
unfoldable pub item_at : ℕ → String → Items → Value
unfolding index_key
item_at i k nil = undefined
item_at i k (cons v vs) = if str_eq (index_key i) k then v else item_at (suc i) k vs

unfoldable pub bool_eq : Bool → Bool → Bool
bool_eq true b = b
bool_eq false true = false
bool_eq false false = true

unfoldable pub int_eq : ℤ → ℤ → Bool
int_eq (pos m) (pos n) = m == n
int_eq (negsuc m) (negsuc n) = m == n
int_eq _ _ = false

unfoldable mutual
  unfolding property count_items count_fields item_at bool_eq int_eq index_key

  pub deep_equal : Value → Value → Bool
  deep_equal undefined undefined = true
  deep_equal null null = true
  deep_equal (bool a) (bool b) = bool_eq a b
  deep_equal (int a) (int b) = int_eq a b
  deep_equal (float a) (float b) = str_eq a b
  deep_equal (str a) (str b) = str_eq a b
  deep_equal (arr xs) (arr ys) = count_items xs == count_items ys && items_equal xs ys
  deep_equal (arr xs) (obj gs) = count_items xs == count_fields gs && items_equal_fields 0 xs gs
  deep_equal (obj fs) (arr ys) = count_fields fs == count_items ys && fields_equal_items fs ys
  deep_equal (obj fs) (obj gs) = count_fields fs == count_fields gs && fields_equal fs gs
  deep_equal _ _ = false

  pub items_equal : Items → Items → Bool
  items_equal nil ys = true
  items_equal (cons x xs) nil = false
  items_equal (cons x xs) (cons y ys) = deep_equal x y && items_equal xs ys

  pub items_equal_fields : ℕ → Items → Fields → Bool
  items_equal_fields i nil gs = true
  items_equal_fields i (cons x xs) gs =
      deep_equal x (property (index_key i) gs) && items_equal_fields (suc i) xs gs

  pub fields_equal_items : Fields → Items → Bool
  fields_equal_items end ys = true
  fields_equal_items (field k v fs) ys = deep_equal v (item_at 0 k ys) && fields_equal_items fs ys

  pub fields_equal : Fields → Fields → Bool
  fields_equal end gs = true
  fields_equal (field k v fs) gs = deep_equal v (property k gs) && fields_equal fs gs

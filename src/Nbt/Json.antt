-- ===== src/Nbt/Json.antt =====
-- crates/nbt/src/json.rs: the type-tagged JSON form of a value.
use mcagit.Common.{
  ℕ, ◌%◌, ◌^◌, List, [], ◌∷◌, Bool, Option, none, some, ltb, if◌then◌else◌, ℤ, pos, negsuc,
}
use mcagit.Common.Text.{Text, text_eq, compare_text, codes}
use mcagit.Common.Words.{wrap}
use mcagit.Nbt.Error.{Result, ok, err, ◌>>=◌, invalid_json}
use mcagit.Nbt.Decimal.{show_int, parse_i64}
use mcagit.Nbt.Value.{
  Value, Items, Entries, byte, short, int, long, float, double, byte_array, string, list, compound,
  int_array, long_array, nil, cons, end, entry,
}
use mcagit.Nbt.Path.{insert_entry}
use Prim.Native.Nat.{Ordering}

-- serde_json's `Value`. `num` is a number without a fraction, `real` a float by its bits; an object
-- is a map in the order of its keys.
mutual
  pub data Json : Type 0 where
    null : Json
    bool : Bool → Json
    num : ℤ → Json
    real : ℕ → Json
    str : Text → Json
    arr : Elements → Json
    obj : Fields → Json

  pub data Elements : Type 0 where
    none_left : Elements
    element : Json → Elements → Elements

  pub data Fields : Type 0 where
    no_fields : Fields
    field : Text → Json → Fields → Fields

-- Rust's text form of floats and its conversions, which are not modelled.
pub record Floats : Type 0 where
  pub show_f32 : ℕ → Text
  pub show_f64 : ℕ → Text
  pub parse_f32 : Text → Option ℕ
  pub parse_f64 : Text → Option ℕ
  pub int_to_f64 : ℤ → ℕ
  pub f64_to_f32 : ℕ → ℕ

-- `Map::insert`
unfoldable pub insert_field : Text → Json → Fields → Fields
insert_field k v no_fields = field k v no_fields
insert_field k v (field j w m) =
    let rest = insert_field k v m in
    elim (compare_text k j) [
      | Ordering.lt ↦ field k v (field j w m)
      | Ordering.eq ↦ field k v m
      | Ordering.gt ↦ field j w rest
    ]

abbrev pub tagged : Text → Json → Json
tagged tag v = obj (field tag v no_fields)

unfoldable pub nums : List ℤ → Elements
nums [] = none_left
nums (x ∷ xs) = element (num x) (nums xs)

unfoldable pub byte_nums : List ℕ → Elements
byte_nums [] = none_left
byte_nums (x ∷ xs) = element (num (pos x)) (byte_nums xs)

unfoldable pub long_texts : List ℤ → Elements
long_texts [] = none_left
long_texts (x ∷ xs) = element (str (show_int x)) (long_texts xs)

unfoldable pub or_bad {ℓ} : {A : Type ℓ} → Option A → Result A
or_bad none = err invalid_json
or_bad (some a) = ok a

-- `as_i64`, `as_u64`, `as_str`
unfoldable pub as_i64 : Json → Option ℤ
as_i64 (num (pos n)) = if ltb n (2 ^ 63) then some (pos n) else none
as_i64 (num (negsuc n)) = if ltb n (2 ^ 63) then some (negsuc n) else none
as_i64 _ = none

unfoldable pub as_u64 : Json → Option ℕ
as_u64 (num (pos n)) = if ltb n (2 ^ 64) then some n else none
as_u64 _ = none

unfoldable pub as_str : Json → Option Text
as_str (str s) = some s
as_str _ = none

unfoldable pub ints_from : ℕ → Elements → Result (List ℤ)
ints_from w none_left = ok []
ints_from w (element j js) = do x ← or_bad (as_i64 j); xs ← ints_from w js; ok (wrap w x ∷ xs)

unfoldable pub bytes_from : Elements → Result (List ℕ)
bytes_from none_left = ok []
bytes_from (element j js) = do x ← or_bad (as_u64 j); xs ← bytes_from js; ok (x % 256 ∷ xs)

unfoldable pub longs_from : Elements → Result (List ℤ)
longs_from none_left = ok []
longs_from (element j js) = do
  s ← or_bad (as_str j)
  x ← or_bad (parse_i64 s)
  xs ← longs_from js
  ok (x ∷ xs)

module _ (fl : Floats) where
  -- `as_f64`
  unfoldable pub as_f64 : Json → Option ℕ
  as_f64 (num z) = some (fl.int_to_f64 z)
  as_f64 (real b) = some b
  as_f64 _ = none

  unfoldable pub f32_from : Json → Result ℕ
  f32_from (str s) = or_bad (fl.parse_f32 s)
  f32_from j = or_bad (as_f64 j) >>= λ b. ok (fl.f64_to_f32 b)

  unfoldable pub f64_from : Json → Result ℕ
  f64_from (str s) = or_bad (fl.parse_f64 s)
  f64_from j = or_bad (as_f64 j)

  unfoldable mutual
    pub to_json : Value → Json
    to_json (byte x) = tagged (codes "byte") (num x)
    to_json (short x) = tagged (codes "short") (num x)
    to_json (int x) = tagged (codes "int") (num x)
    to_json (long x) = tagged (codes "long") (str (show_int x))
    to_json (float x) = tagged (codes "float") (str (fl.show_f32 x))
    to_json (double x) = tagged (codes "double") (str (fl.show_f64 x))
    to_json (byte_array b) = tagged (codes "byteArray") (arr (byte_nums b))
    to_json (string s) = tagged (codes "string") (str s)
    to_json (list xs) = tagged (codes "list") (arr (items_to_json xs))
    to_json (compound m) = tagged (codes "compound") (obj (entries_to_json no_fields m))
    to_json (int_array a) = tagged (codes "intArray") (arr (nums a))
    to_json (long_array a) = tagged (codes "longArray") (arr (long_texts a))

    pub items_to_json : Items → Elements
    items_to_json nil = none_left
    items_to_json (cons v xs) = element (to_json v) (items_to_json xs)

    pub entries_to_json : Fields → Entries → Fields
    entries_to_json o end = o
    entries_to_json o (entry k v m) = entries_to_json (insert_field k (to_json v) o) m

  -- The tags whose payload holds no further value; an unknown tag is an error, and so is a payload
  -- of another form than its tag wants.
  unfoldable pub read_leaf : Text → Json → Result Value
  read_leaf tag val =
      if text_eq tag (codes "byte")
      then (or_bad (as_i64 val) >>= λ x. ok (byte (wrap 8 x)))
      else if text_eq tag (codes "short")
      then (or_bad (as_i64 val) >>= λ x. ok (short (wrap 16 x)))
      else if text_eq tag (codes "int")
      then (or_bad (as_i64 val) >>= λ x. ok (int (wrap 32 x)))
      else if text_eq tag (codes "long")
      then (or_bad (as_str val) >>= λ s. or_bad (parse_i64 s) >>= λ x. ok (long x))
      else if text_eq tag (codes "float")
      then (f32_from val >>= λ b. ok (float b))
      else if text_eq tag (codes "double")
      then (f64_from val >>= λ b. ok (double b))
      else if text_eq tag (codes "string")
      then (or_bad (as_str val) >>= λ s. ok (string s))
      else err invalid_json

  -- The tags whose payload is an array of numbers.
  unfoldable pub read_array : Text → Elements → Result Value
  read_array tag js =
      if text_eq tag (codes "byteArray")
      then (bytes_from js >>= λ b. ok (byte_array b))
      else if text_eq tag (codes "intArray")
      then (ints_from 32 js >>= λ a. ok (int_array a))
      else if text_eq tag (codes "longArray")
      then (longs_from js >>= λ a. ok (long_array a))
      else read_leaf tag (arr js)

  unfoldable mutual
    pub from_json : Json → Result Value
    from_json (obj (field tag val no_fields)) = read_tagged val tag
    from_json _ = err invalid_json

    pub read_tagged : Json → Text → Result Value
    read_tagged (arr js) tag =
        let items = items_from_json js in
        if text_eq tag (codes "list") then (items >>= λ xs. ok (list xs)) else read_array tag js
    read_tagged (obj fs) tag =
        let entries = entries_from_json fs end in
        if text_eq tag (codes "compound")
        then (entries >>= λ m. ok (compound m))
        else read_leaf tag (obj fs)
    read_tagged val tag = read_leaf tag val

    pub items_from_json : Elements → Result Items
    items_from_json none_left = ok nil
    items_from_json (element j js) = do v ← from_json j; xs ← items_from_json js; ok (cons v xs)

    pub entries_from_json : Fields → Entries → Result Entries
    entries_from_json no_fields m = ok m
    entries_from_json (field k j fs) m = do
      v ← from_json j
      entries_from_json fs (insert_entry k v m)

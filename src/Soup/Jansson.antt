-- ===== src/Soup/Jansson.antt =====
-- What mediasoup/src takes from the JSON library jansson. Reference counts are not modelled: a value is
-- what it was when it was read. `integer_value` gives the 64 bits of a `json_int_t`, if the value is an
-- integer; `dumps` and `loads` give `none` where the library returns NULL.
use kore_io_websocket.Base.{ℕ, ◌^◌, ◌<◌, ◌≡◌, ◌≢◌, Bool, true, String, Option, none, some}

pub record Jansson : Type 1 where
  pub Json : Type 0
  pub object : Json
  pub is_object : Json → Bool
  pub string : String → Json
  pub integer : ℕ → Json
  pub object_set : Json → String → Json → Json
  pub object_get : Json → String → Option Json
  pub integer_value : Json → Option ℕ
  pub string_value : Json → Option String
  pub dumps : Json → Option String
  pub loads : String → Option Json
  pub object-is_object : is_object object ≡ true
  pub set-is_object :
      (j v : Json) (k : String) → is_object j ≡ true → is_object (object_set j k v) ≡ true
  pub get-set :
      (j v : Json) (k : String) → is_object j ≡ true → object_get (object_set j k v) k ≡ some v
  pub get-set_ne :
      (j v : Json) (k l : String)
      → is_object j ≡ true
      → k ≢ l
      → object_get (object_set j k v) l ≡ object_get j l
  pub value-integer : (n : ℕ) → n < 2 ^ 63 → integer_value (integer n) ≡ some n
  pub loads-dumps : (j : Json) (text : String) → dumps j ≡ some text → loads text ≡ some j

module _ (J : Jansson) where
  open J use {Json, object_set}

  -- `json_object_set_new`: a value that is NULL is refused, and the object stays as it was.
  abbrev pub set_new : Json → String → Option Json → Json
  set_new j k none = j
  set_new j k (some v) = object_set j k v

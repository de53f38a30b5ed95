-- ===== src/Soup/Examples.antt =====
-- A JSON library for the tests of the mediasoup client, and a client with its memory.
mod Lives
mod Numbers
mod Outcomes
mod Reached
mod Requests
use text.Mathlib.Text.{◌==◌ as str_eq}
use text.Mathlib.TextEquality.{eq_iff}
use kore_io_websocket.Base.{
  ℕ, suc, ◌^◌, ◌<◌, ◌≡◌, refl, ◌≢◌, List, [], ◌∷◌, Bool, true, false, ◌&&◌, String, Option, none,
  some, ◌==◌, if◌then◌else◌, arith,
}
use kore_io_websocket.Soup.Jansson.{Jansson}
use kore_io_websocket.Soup.World.{
  SoupState, init, wait, we_can_work_it_out, Soup, Postman, Timer, Server, World,
}

-- Values as the calls that made them.
pub data Json : Type 0 where
  words : String → Json
  number : ℕ → Json
  empty : Json
  member : Json → String → Json → Json

abbrev pub same : Json → Json → Bool
same (words s) (words t) = str_eq s t
same (number m) (number n) = m == n
same empty empty = true
same (member j k v) (member i l w) = same j i && (str_eq k l && same v w)
same _ _ = false

pub same_sound : (i j : Json) → same i j ≡ true → i ≡ j
same_sound (words s) (words t) h = ground (arith, eq_iff s t)
same_sound (number m) (number n) h = ground arith
same_sound empty empty h = refl
same_sound (member j k v) (member i l w) h =
    ground (arith, same_sound j i, eq_iff k l, same_sound v w)
same_sound (words s) (number n) h = ground arith
same_sound (words s) empty h = ground arith
same_sound (words s) (member i l w) h = ground arith
same_sound (number m) (words t) h = ground arith
same_sound (number m) empty h = ground arith
same_sound (number m) (member i l w) h = ground arith
same_sound empty (words t) h = ground arith
same_sound empty (number n) h = ground arith
same_sound empty (member i l w) h = ground arith
same_sound (member j k v) (words t) h = ground arith
same_sound (member j k v) (number n) h = ground arith
same_sound (member j k v) empty h = ground arith

abbrev pub get : Json → String → Option Json
get (words s) l = none
get (number n) l = none
get empty l = none
get (member j k v) l = if str_eq k l then some v else get j l

abbrev pub is_object : Json → Bool
is_object (words s) = false
is_object (number n) = false
is_object empty = true
is_object (member j k v) = true

abbrev pub value : Json → Option ℕ
value (number n) = some n
value _ = none

abbrev pub characters : Json → Option String
characters (words s) = some s
characters _ = none

module _ (known : Json) (printed : String) where
  abbrev pub print : Json → Option String
  print j = if same j known then some printed else none

  abbrev pub parse : String → Option Json
  parse t = if str_eq t printed then some known else none

  pub parse-print : (j : Json) (t : String) → print j ≡ some t → parse t ≡ some j
  parse-print j t h = ground (arith, same_sound j known, eq_iff t printed)

  pub get-member : (j v : Json) (k : String) → is_object j ≡ true → get (member j k v) k ≡ some v
  get-member j v k o = ground (arith, eq_iff k k)

  pub get-member_ne :
      (j v : Json) (k l : String) → is_object j ≡ true → k ≢ l → get (member j k v) l ≡ get j l
  get-member_ne j v k l o h = ground (arith, eq_iff k l)

  -- The library that prints the value `known` as `printed`, and reads it.
  abbrev pub jansson : Jansson
  jansson = record {
    Json = Json;
    object = empty;
    is_object = is_object;
    string = words;
    integer = number;
    object_set = member;
    object_get = get;
    integer_value = value;
    string_value = characters;
    dumps = print;
    loads = parse;
    object-is_object = refl;
    set-is_object = λ j v k o. refl;
    get-set = get-member;
    get-set_ne = get-member_ne;
    value-integer = λ n h. refl;
    loads-dumps = parse-print;
  }

-- ===== src/Soup/Requests/Texts.antt =====
-- The text of a request of mediasoup/src/channel.c, as the other side reads it.
use text.Mathlib.Text.{◌==◌ as str_eq}
use text.Mathlib.TextEquality.{eq_iff}
use mathlib.Core.Option
use kore_io_websocket.Base.{
  ℕ, ◌^◌, ◌<◌, ◌≡◌, ◌≢◌, refl, ◌∙◌, String, Option, none, some, true, false, arith,
}
use kore_io_websocket.Soup.Jansson.{Jansson, set_new}
use kore_io_websocket.Soup.Requests.{request_json, js_get_uint32}

differ : (k l : String) → str_eq k l ≡ false → k ≢ l
differ k l h e = ground (arith, eq_iff k l)

module _ (J : Jansson) where
  open J use {Json, object, is_object, string, integer, object_set, object_get, dumps, loads}

  -- `json_object_set_new` of the last member leaves the others.
  get-set_new :
      (j : Json) (k l : String) (v : Option Json)
      → is_object j ≡ true
      → k ≢ l
      → object_get (set_new J j k v) l ≡ object_get j l
  get-set_new j k l none o h = refl
  get-set_new j k l (some v) o h = J.get-set_ne j v k l o h

  set_new-is_object :
      (j : Json) (k : String) (v : Option Json)
      → is_object j ≡ true
      → is_object (set_new J j k v) ≡ true
  set_new-is_object j k none o = o
  set_new-is_object j k (some v) o = J.set-is_object j v k o

  read_uint32 :
      (root v : Json) (k : String) (n : ℕ)
      → object_get root k ≡ some v
      → J.integer_value v ≡ some n
      → n < 2 ^ 32
      → js_get_uint32 J root k ≡ n
  unfolding js_get_uint32 Option.bind
  read_uint32 root v k n e f h = rw e (rw f (omega arith))

  -- A request that is turned into a text is read back by the other side with the id that its letter
  -- waits under, with the `internal` that was given, and with the options as "data".
  pub request_carries :
      (name : Option String) (id : ℕ) (internal options : Json) (text : String)
      → id < 2 ^ 32
      → dumps (request_json J name id internal (some options)) ≡ some text
      → (root : Json) × (loads text ≡ some root)
        × (js_get_uint32 J root "id" ≡ id)
        × (object_get root "internal" ≡ some internal)
        × (object_get root "data" ≡ some options)
  unfolding request_json
  request_carries name id internal options text h e =
      let root = request_json J name id internal (some options) in
      let with_method = set_new J object "method" (Option.map string name) in
      let with_id = object_set with_method "id" (integer id) in
      let with_internal = object_set with_id "internal" internal in
      let o₁ = set_new-is_object object "method" (Option.map string name) J.object-is_object in
      let o₂ = J.set-is_object with_method (integer id) "id" o₁ in
      let o₃ = J.set-is_object with_id internal "internal" o₂ in
      let id_there =
        get-set_new with_internal "data" "id" (some options) o₃ (differ "data" "id" refl)
        ∙ J.get-set_ne with_id internal "internal" "id" o₂ (differ "internal" "id" refl)
        ∙ J.get-set with_method (integer id) "id" o₁ in
      (
        root,
        J.loads-dumps root text e,
        read_uint32 root (integer id) "id" id id_there (J.value-integer id (omega arith)) h,
        get-set_new with_internal "data" "internal" (some options) o₃
              (differ "data" "internal" refl)
            ∙ J.get-set with_id internal "internal" o₂,
        J.get-set with_internal options "data" o₃,
      )

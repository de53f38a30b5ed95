-- ===== src/Media/Messages/Dispatch.antt =====
-- What becomes of a message of a client, and of a text of the C++ side, in mediasoup_1/src/mediasoup_1.c.
use text.Mathlib.Text.{◌==◌ as str_eq}
use text.Mathlib.TextEquality.{eq_iff}
use mathlib.Core.Option
use Prim.Native.String.{len}
use kore_io_websocket.Base.{
  ℕ, ◌+◌, ◌%◌, ◌≤◌, ◌≡◌, ◌≢◌, ◌∙◌, refl, List, ◌∷◌, String, Option, none, some, true, false, arith,
}
use kore_io_websocket.Soup.Jansson.{Jansson}
use kore_io_websocket.Soup.Random.{rand_max, id_min, id_max}
use kore_io_websocket.Media.Numbers.{random_u32, rand32_remainder}
use kore_io_websocket.Media.Messages.{
  uv_callback_fire, kore_websocket_broadcast, free_data, State, ok, room_request, websocket_message,
  result_reply, on_from_cpp,
}

differ : (k l : String) → str_eq k l ≡ false → k ≢ l
differ k l h e = ground (arith, eq_iff k l)

-- The number that `random_u32` draws from a value of `rand()`.
abbrev pub drawn : ℕ → ℕ
drawn r = r % 90000000 + 10000000

random_u32_lem : (r : ℕ) (rs : List ℕ) → r ≤ rand_max → random_u32 (r ∷ rs) ≡ some (drawn r, rs)
unfolding random_u32
random_u32_lem r rs h =
    rand32_remainder id_min id_max (omega arith) (omega arith) (omega arith) r rs h

module _ (J : Jansson) where
  open J use {Json, object, is_object, string, integer, object_set, object_get}

  two_members :
      (j a b : Json) (k l : String)
      → is_object j ≡ true
      → is_object (object_set (object_set j k a) l b) ≡ true
  two_members j a b k l o = J.set-is_object _ b l (J.set-is_object j a k o)

  earlier :
      (j a b : Json) (k l : String)
      → is_object j ≡ true
      → l ≢ k
      → object_get (object_set (object_set j k a) l b) k ≡ some a
  earlier j a b k l o d =
      J.get-set_ne (object_set j k a) b l k (J.set-is_object j a k o) d ∙ J.get-set j a k o

  -- What the C++ side can read in a request for a room.
  abbrev pub Reads : ℕ → ℕ → Json → Type 0
  Reads req_id room_id root =
      (object_get root "method" ≡ some (string "worker.createRoom"))
      × (object_get root "id" ≡ some (integer req_id))
      × (internal : Json) × (object_get root "internal" ≡ some internal)
      × (object_get internal "roomId" ≡ some (integer room_id))

  room_request-Reads : (req_id room_id : ℕ) → Reads req_id room_id (room_request J req_id room_id)
  unfolding room_request
  room_request-Reads req_id room_id =
      let named = string "worker.createRoom" in
      let first = object_set object "id" (integer req_id) in
      let head = object_set first "method" named in
      let room = object_set object "roomId" (integer room_id) in
      let internal = object_set room "sister" (string "sister_1") in
      let content = object_set object "a" (integer 1) in
      let ob = J.object-is_object in
      let o = two_members object (integer req_id) named "id" "method" ob in
      let behind = λ (k : String) (d : "data" ≢ k) (i : "internal" ≢ k).
        J.get-set_ne (object_set head "internal" internal) content "data" k
          (J.set-is_object head internal "internal" o) d
        ∙ J.get-set_ne head internal "internal" k o i in
      (
        behind "method" (differ "data" "method" refl) (differ "internal" "method" refl)
            ∙ J.get-set first named "method" (J.set-is_object object (integer req_id) "id" ob),
        behind "id" (differ "data" "id" refl) (differ "internal" "id" refl)
            ∙ earlier object (integer req_id) named "id" "method" ob (differ "method" "id" refl),
        internal,
        earlier head internal content "internal" "data" o (differ "data" "internal" refl),
        earlier object (integer room_id) (string "sister_1") "roomId" "sister" ob
            (differ "sister" "roomId" refl),
      )

module _ (J : Jansson) (dumps_indented : J.Json → Option String) where
  open J use {Json, object_get, loads}

  -- A message that is JSON of type "create_room", where there is a media object, `rand()` gives two
  -- values, the request is written as a text `sent`, and texts that are written can be read back: the
  -- C++ side is asked, once, for a room. It can read in the text the method, the number of the request
  -- and that of the room: they are what `random_u32` draws from the two values, which are used up.
  pub create_room_asks :
      (c op n r r' : ℕ) (rs : List ℕ) (text sent : String) (root : Json) (s : State)
      → loads text ≡ some root
      → Option.bind (object_get root "type") J.string_value ≡ some "create_room"
      → s.medias ≢ 0
      → s.rands ≡ r ∷ r' ∷ rs
      → r ≤ rand_max
      → r' ≤ rand_max
      → dumps_indented (room_request J (drawn r) (drawn r')) ≡ some sent
      → ((j : Json) (t : String) → dumps_indented j ≡ some t → loads t ≡ some j)
      → (websocket_message J dumps_indented c op (some text) n s
          ≡ ok (record s { rands = rs; trace = uv_callback_fire (some sent) ∷ s.trace }))
        × (asked : Json) × (loads sent ≡ some asked)
        × Reads J (drawn r) (drawn r') asked
  unfolding websocket_message
  create_room_asks c op n r r' rs text sent root s e t m q h h' d law = (
    ground (
      arith,
      random_u32_lem r (r' ∷ rs) h,
      random_u32_lem r' rs h',
      eq_iff "create_room" "message",
      eq_iff "create_room" "create_room",
    ),
    room_request J (drawn r) (drawn r'),
    law (room_request J (drawn r) (drawn r')) sent d,
    room_request-Reads J (drawn r) (drawn r'),
  )

  -- A text of the C++ side that is not "exit", for which a reply of some bytes is written: the reply is
  -- broadcast once to all websockets, and whoever parses it finds the text under "msg". The memory of
  -- the text is freed exactly if the text itself was JSON; otherwise it is lost.
  pub result_reaches_all :
      (text reply : String) (s : State)
      → str_eq text "exit" ≡ false
      → J.dumps (result_reply J text) ≡ some reply
      → len reply ≢ 0
      → (on_from_cpp J dumps_indented (some text) s
          ≡ ok (record s {
            trace = elim (loads text) [
              | none ↦ kore_websocket_broadcast 1 reply (len reply) 56 ∷ s.trace
              | some j ↦ free_data ∷ kore_websocket_broadcast 1 reply (len reply) 56 ∷ s.trace
            ];
          }))
        × (parsed : Json) × (loads reply ≡ some parsed)
        × (object_get parsed "msg" ≡ some (J.string text))
  unfolding on_from_cpp result_reply
  result_reaches_all text reply s x d n = (
    ground arith,
    result_reply J text,
    J.loads-dumps (result_reply J text) reply d,
    J.get-set (J.object_set J.object "type" (J.string "on_result")) (J.string text) "msg"
        (J.set-is_object J.object (J.string "on_result") "type" J.object-is_object),
  )

-- ===== src/Janus/Target.antt =====
-- janus/src/pjanus.c, `kore_websocket_target` with its own `websocket_frame_build`: an event of a session
-- is written to one websocket. `none` is a read through `us`, if a websocket has no `hdlr_extra`.
use kore_io_websocket.Base.{
  ℕ, ◌%◌, ◌^◌, ◌≡◌, refl, List, [], ◌∷◌, ◌++◌, Bool, false, ◌&&◌, Option, none, some, take, ltb,
  leb, ◌==◌, if◌then◌else◌, arith,
}
use kore_io_websocket.Websocket.Wire.{Wire}
use kore_io_websocket.Websocket.Rooms.{Connection, is_websocket}
use kore_io_websocket.Websocket.Frame.{
  payload_single, payload_extend_1, payload_extend_2, ushrt_max, set_fin, clear_mask,
  extended_length,
}
use kore_io_websocket.Janus.{World, Usi, called, net_send}

-- `len <= USHRT_MAX`
unfoldable pub length_code : ℕ → ℕ
length_code len =
    if ltb payload_single len
    then if leb len ushrt_max then payload_extend_1 else payload_extend_2
    else len % 2 ^ 8

-- `payload` is `none` where the pointer is NULL.
unfoldable pub payload_part : Option (List ℕ) → ℕ → List ℕ
payload_part none len = []
payload_part (some payload) len = if ltb 0 len then take len payload else []

module _ (w : Wire) where
  unfoldable pub websocket_frame_build : ℕ → Option (List ℕ) → ℕ → List ℕ
  unfolding length_code payload_part
  websocket_frame_build op payload len =
      let len_1 = clear_mask (length_code len) in
      set_fin op ∷ len_1 ∷ extended_length w len_1 len ++ payload_part payload len

-- `us->sid==sessid && us->aw==0`
abbrev pub is_target : ℕ → Usi → Bool
is_target sid us = us.sid == sid && us.aw == 0

-- The body of the loop for a websocket; `rest` is the loop over the connections behind it.
unfoldable pub visit : ℕ → List ℕ → ℕ → Option Usi → Option World → World → Option World
visit sid frame c none rest v = none
visit sid frame c (some us) rest v =
    if is_target sid us then some (called (net_send c frame ∷ []) v) else rest

-- The `TAILQ_FOREACH` loop, with its `break`.
unfoldable pub seek : ℕ → List ℕ → List Connection → World → Option World
unfolding visit
seek sid frame [] v = some v
seek sid frame (c ∷ cs) v =
    let rest = seek sid frame cs v in
    if is_websocket c.proto then visit sid frame c.ptr (v.usi c.hdlr_extra) rest v else rest

unfoldable pub kore_websocket_target :
    Wire → List Connection → ℕ → ℕ → List ℕ → ℕ → World → Option World
unfolding websocket_frame_build
kore_websocket_target w connections sid op payload len v =
    seek sid (websocket_frame_build w op (some payload) len) connections v

-- Every websocket of the list has its `struct usi`.
abbrev pub Known : List Connection → World → Type 0
Known [] v = Unit
Known (c ∷ cs) v =
    (if is_websocket c.proto then ((us : Usi) × (v.usi c.hdlr_extra ≡ some us)) else Unit)
    × Known cs v

-- Whether the connection is the websocket of the session that is not an administrator's.
abbrev pub serves : ℕ → World → Connection → Bool
serves sid v c =
    is_websocket c.proto && elim (v.usi c.hdlr_extra) [ none ↦ false | some us ↦ is_target sid us ]

abbrev pub first : ℕ → World → List Connection → Option Connection
first sid v [] = none
first sid v (c ∷ cs) = if serves sid v c then some c else first sid v cs

abbrev pub sent_to : Option Connection → List ℕ → World → World
sent_to none frame v = v
sent_to (some c) frame v = called (net_send c.ptr frame ∷ []) v

seek-first :
    (sid : ℕ) (frame : List ℕ) (cs : List Connection) (v : World)
    → Known cs v
    → seek sid frame cs v ≡ some (sent_to (first sid v cs) frame v)
unfolding seek
seek-first sid frame [] v k = refl
seek-first sid frame (c ∷ cs) v k = ground (arith, seek-first sid frame cs v k.1, k.0)

-- An event is written, as one frame, to the first websocket in Kore's list whose `struct usi` has the
-- session and is not an administrator's, and to no other; without such a websocket nothing happens.
-- Every websocket of the list has its `struct usi`.
pub event_reaches_first :
    (w : Wire) (connections : List Connection) (sid op : ℕ) (payload : List ℕ) (len : ℕ) (v : World)
    → Known connections v
    → kore_websocket_target w connections sid op payload len v
      ≡ some (sent_to (first sid v connections) (websocket_frame_build w op (some payload) len) v)
unfolding kore_websocket_target
event_reaches_first w connections sid op payload len v known =
    seek-first sid (websocket_frame_build w op (some payload) len) connections v known

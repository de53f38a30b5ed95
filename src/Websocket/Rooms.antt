-- ===== src/Websocket/Rooms.antt =====
-- websocket_9/src/helper.c, `kore_websocket_broadcast_room` and `kore_websocket_broadcast_room_char`.
-- Kore's list of connections is an argument; the calls of Kore are recorded in order.
use kore_io_websocket.Base.{
  ℕ, ◌%◌, ◌^◌, ◌≤◌, ◌<◌, ◌≡◌, refl, ap, ◌∙◌, sym, List, [], ◌∷◌, ◌++◌, Bool, true, false, ◌&&◌,
  none, some, take, length, ◌==◌, if◌then◌else◌, arith, Absent, Distinct, Absent-mem, append-nil,
  Memᴰ,
}
use kore_io_websocket.Websocket.Wire.{Wire}
use kore_io_websocket.Websocket.Frame.{frame_build}
use kore_io_websocket.Websocket.Decode.{Frame, decode}
use kore_io_websocket.Websocket.RoundTrip.{decode-frame_build}

pub data Proto : Type 0 where
  websocket other : Proto

-- A connection at the address `ptr`. `hdlr_extra` is an address, 0 is NULL.
pub record Connection : Type 0 where
  pub ptr : ℕ
  pub proto : Proto
  pub hdlr_extra : ℕ

-- net_send_queue, net_send_flush, kore_msg_send
pub data Effect : Type 0 where
  send_queue : ℕ → List ℕ → Effect
  send_flush : ℕ → Effect
  msg_send : List ℕ → Effect

abbrev pub is_websocket : Proto → Bool
is_websocket websocket = true
is_websocket other = false

abbrev pub in_room : ℕ → Connection → Bool
in_room room c = c.hdlr_extra == room && is_websocket c.proto

-- The `TAILQ_FOREACH` loop.
unfoldable pub deliver : ℕ → List ℕ → List Connection → List Effect
deliver room frame [] = []
deliver room frame (c ∷ cs) =
    let rest = deliver room frame cs in
    if in_room room c then send_queue c.ptr frame ∷ send_flush c.ptr ∷ rest else rest

module _ (w : Wire) (connections : List Connection) where
  unfoldable pub broadcast_room_char : ℕ → ℕ → List ℕ → ℕ → ℕ → List Effect
  broadcast_room_char src op buf len scope =
      let frame = frame_build w op buf len in
      deliver src frame connections
      ++ (if scope == w.broadcast_global then msg_send frame ∷ [] else [])

  unfoldable pub broadcast_room : Connection → ℕ → List ℕ → ℕ → ℕ → List Effect
  broadcast_room src op buf len scope =
      let frame = frame_build w op buf len in
      deliver src.hdlr_extra frame connections
      ++ (if scope == w.broadcast_global then msg_send frame ∷ [] else [])

-- The bytes that a trace queues for one connection, and those that it hands to the other workers.
abbrev pub received : ℕ → List Effect → List ℕ
received k [] = []
received k (send_queue c bytes ∷ es) = if c == k then bytes ++ received k es else received k es
received k (send_flush c ∷ es) = received k es
received k (msg_send bytes ∷ es) = received k es

abbrev pub handed_over : List Effect → List (List ℕ)
handed_over [] = []
handed_over (send_queue c bytes ∷ es) = handed_over es
handed_over (send_flush c ∷ es) = handed_over es
handed_over (msg_send bytes ∷ es) = bytes ∷ handed_over es

received-deliver_miss :
    (k room : ℕ) (frame : List ℕ) (cs : List Connection) (es : List Effect)
    → Absent (λ (c : Connection). c.ptr) k cs
    → received k (deliver room frame cs ++ es) ≡ received k es
unfolding deliver
received-deliver_miss k room frame [] es a = refl
received-deliver_miss k room frame (c ∷ cs) es a =
    ground (arith, received-deliver_miss k room frame cs es a.1, a.0)

received-deliver :
    (room : ℕ) (frame : List ℕ) (cs : List Connection) (c : Connection) (es : List Effect)
    → Distinct (λ (c : Connection). c.ptr) cs
    → Memᴰ c cs
    → received c.ptr es ≡ []
    → received c.ptr (deliver room frame cs ++ es) ≡ (if in_room room c then frame else [])
unfolding deliver
received-deliver room frame [] c es n m h = elim m [ ]
received-deliver room frame (d ∷ cs) c es n (Memᴰ.head e) h =
    rw e (
      ground (arith, received-deliver_miss d.ptr room frame cs es n.0, append-nil frame, rw e at h))
received-deliver room frame (d ∷ cs) c es n (Memᴰ.tail m) h = ground (
  arith,
  received-deliver room frame cs c es n.1 m h,
  Absent-mem (λ (c : Connection). c.ptr) cs n.0 m,
)

received-end :
    (k : ℕ) (b : Bool) (frame : List ℕ) → received k (if b then msg_send frame ∷ [] else []) ≡ []
received-end k true frame = refl
received-end k false frame = refl

handed_over-end :
    (b : Bool) (frame : List ℕ)
    → handed_over (if b then msg_send frame ∷ [] else []) ≡ (if b then frame ∷ [] else [])
handed_over-end true frame = refl
handed_over-end false frame = refl

handed_over-deliver :
    (room : ℕ) (frame : List ℕ) (cs : List Connection) (es : List Effect)
    → handed_over (deliver room frame cs ++ es) ≡ handed_over es
unfolding deliver
handed_over-deliver room frame [] es = refl
handed_over-deliver room frame (c ∷ cs) es = ground (arith, handed_over-deliver room frame cs es)

abbrev pub text_of : ℕ → List ℕ → ℕ → Frame
text_of op buf len = record {
  fin = true;
  opcode = op % 128;
  masked = false;
  payload = take len buf;
}

module _ (w : Wire) (connections : List Connection) (op : ℕ) (buf : List ℕ) (len scope : ℕ) where
  received-decode :
      (b : Bool)
      → op < 256
      → len ≤ length buf
      → len < 2 ^ 64
      → decode w (if b then frame_build w op buf len else [])
        ≡ (if b then some (text_of op buf len, []) else none)
  unfolding decode
  received-decode true ho hl h =
      ap (decode w) (sym (append-nil _)) ∙ decode-frame_build w op buf len [] ho hl h
  received-decode false ho hl h = refl

  pub broadcast_room-reaches :
      (src c : Connection)
      → Distinct (λ (c : Connection). c.ptr) connections
      → Memᴰ c connections
      → op < 256
      → len ≤ length buf
      → len < 2 ^ 64
      → let trace = broadcast_room w connections src op buf len scope in
        (decode w (received c.ptr trace)
          ≡ (if in_room src.hdlr_extra c then some (text_of op buf len, []) else none))
        × (handed_over trace
            ≡ (if scope == w.broadcast_global then frame_build w op buf len ∷ [] else []))
  unfolding broadcast_room
  broadcast_room-reaches src c n m ho hl h = (
    ap (decode w) (
          received-deliver src.hdlr_extra (frame_build w op buf len) connections c _ n m
            (received-end c.ptr (scope == w.broadcast_global) (frame_build w op buf len)))
        ∙ received-decode (in_room src.hdlr_extra c) ho hl h,
    handed_over-deliver src.hdlr_extra (frame_build w op buf len) connections _
        ∙ handed_over-end (scope == w.broadcast_global) (frame_build w op buf len),
  )

-- ===== src/Websocket/Sessions/Users.antt =====
-- What the handlers of websocket_9 do for the users of a reachable server: who hears a message, and
-- which numbers the users get.
use kore_io_websocket.Base.{
  ℕ, ◌-◌, ◌^◌, ◌≤◌, ◌<◌, ◌≡◌, ◌≢◌, ap, ◌∙◌, sym, subst, List, [], ◌∷◌, Option, none, some, length,
  ◌==◌, if◌then◌else◌, arith, Absent, Distinct, Absent-mem, Memᴰ, inl, inr, ne→eqb, Bool-cases,
}
use kore_io_websocket.Websocket.Wire.{Wire}
use kore_io_websocket.Websocket.Decode.{decode}
use kore_io_websocket.Websocket.Rooms.{
  Connection, Effect, received, in_room, text_of, broadcast_room, broadcast_room-reaches,
}
use kore_io_websocket.Websocket.Sessions.{
  Ex, Server, user_id, update, int_max, websocket_connect, websocket_message, websocket_disconnect,
  clear_extra, without, ptr_of, extra_of, Reach,
}
use kore_io_websocket.Websocket.Sessions.Invariant.{
  Inv, Held, Held-mem, Reach-Inv, connected, closed, closes-closed,
}

-- In a reachable server the handlers of a live connection never read memory that is not allocated:
-- the disconnect handler returns, and so does the message handler, with the trace of a broadcast.
pub handlers_total :
    (w : Wire) (s : Server) (c : Connection) (op len : ℕ) (buf : List ℕ)
    → Reach s
    → Memᴰ c s.connections
    → ((t : Server) × (websocket_disconnect s c ≡ some t))
      × (websocket_message w s c op (some buf) len
          ≡ some (broadcast_room w s.connections c op buf len 1))
unfolding websocket_disconnect websocket_message
handlers_total w s c op len buf r m =
    let (e, he) = Held-mem s.extra c s.connections (Reach-Inv r).held m in
    (
      (
        record {
          ab = s.ab - 1;
          connections = clear_extra c.ptr s.connections;
          extra = update s.extra c.hdlr_extra none;
        },
        rw (he, websocket_disconnect),
      ),
      rw (he, websocket_message),
    )

-- The room of a connection is the address of its own `ex`.
in_room-mem :
    (c d : Connection) (cs : List Connection) (x : ℕ → Option Ex)
    → Held x cs
    → Distinct extra_of cs
    → Distinct ptr_of cs
    → Memᴰ c cs
    → Memᴰ d cs
    → in_room c.hdlr_extra d ≡ (d.ptr == c.ptr)
in_room-mem c d [] x h n p m k = elim m [ ]
in_room-mem c d (y ∷ ys) x h n p (Memᴰ.head e) (Memᴰ.head f) = rw (e, f) (ground (arith, h.1))
in_room-mem c d (y ∷ ys) x h n p (Memᴰ.head e) (Memᴰ.tail k) = rw e (
    rw (
      ne→eqb d.hdlr_extra y.hdlr_extra (λ q. Absent-mem extra_of ys n.0 k (sym q)),
      ne→eqb d.ptr y.ptr (λ q. Absent-mem ptr_of ys p.0 k (sym q)),
    ))
in_room-mem c d (y ∷ ys) x h n p (Memᴰ.tail m) (Memᴰ.head f) = rw f (
    rw (
      ne→eqb y.hdlr_extra c.hdlr_extra (Absent-mem extra_of ys n.0 m),
      ne→eqb y.ptr c.ptr (Absent-mem ptr_of ys p.0 m),
    ))
in_room-mem c d (y ∷ ys) x h n p (Memᴰ.tail m) (Memᴰ.tail k) = in_room-mem c d ys x h.2 n.1 p.1 m k

-- A message to a room goes back to its sender and to nobody else: of the live connections of a
-- reachable server only the sender is queued a frame, which holds the message.
pub message_echoes :
    (w : Wire) (s : Server) (c d : Connection) (op len : ℕ) (buf : List ℕ)
    → Reach s
    → Memᴰ c s.connections
    → Memᴰ d s.connections
    → op < 256
    → len ≤ length buf
    → len < 2 ^ 64
    → (trace : List Effect) × (websocket_message w s c op (some buf) len ≡ some trace)
      × (decode w (received d.ptr trace)
          ≡ (if d.ptr == c.ptr then some (text_of op buf len, []) else none))
message_echoes w s c d op len buf r m k ho hl h =
    let v = Reach-Inv r in
    (
      broadcast_room w s.connections c op buf len 1,
      (handlers_total w s c op len buf r m).1,
      rw (sym (in_room-mem c d s.connections s.extra v.held v.extras v.addresses m k))
          (broadcast_room-reaches w s.connections op buf len 1 c d v.addresses k ho hl h).0,
    )

-- The number that a live connection was given.
abbrev pub user_number : Server → Connection → Option Ex
user_number s c = s.extra c.hdlr_extra

Memᴰ-without :
    (c d : Connection) (cs : List Connection)
    → Memᴰ c cs
    → c.ptr ≢ d.ptr
    → Memᴰ c (without d.ptr cs)
Memᴰ-without c d [] m h = elim m [ ]
Memᴰ-without c d (y ∷ ys) (Memᴰ.head e) h =
    rw (ne→eqb y.ptr d.ptr (λ q. h (ap ptr_of e ∙ q))) (Memᴰ.head e)
Memᴰ-without c d (y ∷ ys) (Memᴰ.tail m) h = elim (Bool-cases (y.ptr == d.ptr)) [
  | inl hit ↦ rw hit m
  | inr miss ↦ rw miss (Memᴰ.tail (Memᴰ-without c d ys m h))
]

extras_ne :
    (c d : Connection) (cs : List Connection)
    → Distinct extra_of cs
    → Memᴰ c cs
    → Memᴰ d cs
    → c.ptr ≢ d.ptr
    → c.hdlr_extra ≢ d.hdlr_extra
extras_ne c d [] n m k h = elim m [ ]
extras_ne c d (y ∷ ys) n (Memᴰ.head e) (Memᴰ.head f) h = absurd (h (ap ptr_of (e ∙ sym f)))
extras_ne c d (y ∷ ys) n (Memᴰ.head e) (Memᴰ.tail k) h = rw e (Absent-mem extra_of ys n.0 k)
extras_ne c d (y ∷ ys) n (Memᴰ.tail m) (Memᴰ.head f) h =
    rw f (λ q. Absent-mem extra_of ys n.0 m (sym q))
extras_ne c d (y ∷ ys) n (Memᴰ.tail m) (Memᴰ.tail k) h = extras_ne c d ys n.1 m k h

length-mem {ℓ} : {A : Type ℓ} {x : A} (xs : List A) → Memᴰ x xs → 0 < length xs
length-mem [] m = elim m [ ]
length-mem (y ∷ ys) m = omega arith

reuse :
    (s : Server) (c d : Connection) (p l b : ℕ)
    → Inv s
    → Memᴰ c s.connections
    → Memᴰ d s.connections
    → c.ptr ≢ d.ptr
    → user_number s c ≡ some (record { id = s.ab; b = b })
    → Absent extra_of l (closed s d).connections
    → s.ab ≤ int_max
    → (u : Server) × (websocket_connect (closed s d) p l ≡ some (u, user_id p s.ab 46))
      × Memᴰ c u.connections
      × (user_number u c ≡ some (record { id = s.ab; b = b }))
unfolding websocket_connect
reuse s c d p l b v m k apart e fresh small =
    let stays = Memᴰ-without c d s.connections m apart in
    let live = length-mem s.connections m in
    (
      connected (closed s d) p l,
      ground (arith, v.counted, live),
      Memᴰ.tail stays,
      ground (
        arith,
        e,
        extras_ne c d s.connections v.extras m k apart,
        Absent-mem extra_of (closed s d).connections fresh stays,
      ),
    )

-- User numbers are used twice. Take a reachable server and two live connections, of which `c` has the
-- newest number. Once the other has closed, the next connection, at fresh addresses, is accepted with
-- the number of `c`, which is still live.
pub user_number_reused :
    (s t s' : Server) (c d : Connection) (p l : ℕ) (b : ℕ)
    → Reach s
    → Memᴰ c s.connections
    → Memᴰ d s.connections
    → c.ptr ≢ d.ptr
    → user_number s c ≡ some (record { id = s.ab; b = b })
    → websocket_disconnect s d ≡ some s'
    → t ≡ record s' { connections = without d.ptr s'.connections }
    → Absent extra_of l t.connections
    → s.ab ≤ int_max
    → (u : Server) × (websocket_connect t p l ≡ some (u, user_id p s.ab 46))
      × Memᴰ c u.connections
      × (user_number u c ≡ some (record { id = s.ab; b = b }))
user_number_reused s t s' c d p l b r m k apart e hd ht fresh small =
    let q = closes-closed s t s' d hd ht in
    subst
      (λ t.
        Absent extra_of l t.connections
        → (u : Server) × (websocket_connect t p l ≡ some (u, user_id p s.ab 46))
          × Memᴰ c u.connections
          × (user_number u c ≡ some (record { id = s.ab; b = b })))
      (sym q) (λ f. reuse s c d p l b (Reach-Inv r) m k apart e f small) fresh

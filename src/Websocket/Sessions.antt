-- ===== src/Websocket/Sessions.antt =====
-- websocket_9/src/websocket_9.c: the handlers of a websocket and the counter `ab` that numbers users.
-- Kore's part is the relation `Step`: it accepts connections, delivers messages and closes.
pub mod Invariant
pub mod Users
use kore_io_websocket.Base.{
  ℕ, suc, ◌+◌, ◌-◌, ◌≤◌, ◌<◌, ◌≡◌, refl, ap, ◌∙◌, sym, List, [], ◌∷◌, ◌++◌, Bool, true, false, ◌&&◌,
  Option, none, some, length, ltb, ◌==◌, if◌then◌else◌, arith, Absent, Distinct, Absent-mem, Memᴰ,
}
use kore_io_websocket.Websocket.Wire.{Wire}
use kore_io_websocket.Websocket.Rooms.{Connection, Effect, Proto, websocket, other, broadcast_room}

-- struct ex
pub record Ex : Type 0 where
  pub id : ℕ
  pub b : ℕ

-- `extra` is the memory that `kore_malloc` gave for an `ex`; `none` is memory that is not allocated.
-- `ab` is an `int`: it counts the live connections, so the `-` of the disconnect handler is exact.
pub record Server : Type 0 where
  pub ab : ℕ
  pub connections : List Connection
  pub extra : ℕ → Option Ex

abbrev pub int_max : ℕ
int_max = 2147483647

abbrev pub update {ℓ} : {A : Type ℓ} → (ℕ → A) → ℕ → A → ℕ → A
update f p v q = if p == q then v else f q

-- What a handler does to a state, with the JSON that it sends: `user_id c id b` is the text of
-- {"type": "user_id", "msg": "Hallo jason!", "id": id, "b": b}, sent to `c`.
pub data Reply : Type 0 where
  user_id : ℕ → ℕ → ℕ → Reply

-- `c` is the address of the new connection and `l` what `kore_malloc` returns. `none` is the overflow
-- of `ab`, which C leaves undefined.
unfoldable pub websocket_connect : Server → ℕ → ℕ → Option (Server × Reply)
websocket_connect s c l =
    let ab = s.ab + 1 in
    let e : Ex = record { id = ab; b = 46 } in
    if ltb s.ab int_max
    then some (
      record {
        ab = ab;
        connections = record { ptr = c; proto = websocket; hdlr_extra = l } ∷ s.connections;
        extra = update s.extra l (some e);
      },
      user_id c ab 46,
    )
    else none

-- A message without data is dropped. The handler reads `c->hdlr_extra` for its log line, so `none` is
-- a read of memory that is not allocated.
unfoldable pub websocket_message :
    Wire → Server → Connection → ℕ → Option (List ℕ) → ℕ → Option (List Effect)
websocket_message w s c op none len = some []
websocket_message w s c op (some buf) len = elim (s.extra c.hdlr_extra) [
  | none ↦ none
  | some e ↦ some (broadcast_room w s.connections c op buf len 1)
]

-- `c->hdlr_extra = NULL`
abbrev pub clear_extra : ℕ → List Connection → List Connection
clear_extra p [] = []
clear_extra p (c ∷ cs) =
    if c.ptr == p then record c { hdlr_extra = 0 } ∷ cs else c ∷ clear_extra p cs

unfoldable pub websocket_disconnect : Server → Connection → Option Server
websocket_disconnect s c = elim (s.extra c.hdlr_extra) [
  | none ↦ none
  | some e ↦ some (record {
    ab = s.ab - 1;
    connections = clear_extra c.ptr s.connections;
    extra = update s.extra c.hdlr_extra none;
  })
]

-- Kore takes a connection off its list once the handler has returned.
abbrev pub without : ℕ → List Connection → List Connection
without p [] = []
without p (c ∷ cs) = if c.ptr == p then cs else c ∷ without p cs

abbrev pub ptr_of : Connection → ℕ
ptr_of c = c.ptr

abbrev pub extra_of : Connection → ℕ
extra_of c = c.hdlr_extra

-- A connection comes with an address that no live one has, and so does the memory of its `ex`.
pub data Step (s t : Server) : Type 0 where
  accepts :
      (c l : ℕ) (r : Reply)
      → Absent ptr_of c s.connections
      → Absent extra_of l s.connections
      → websocket_connect s c l ≡ some (t, r)
      → Step s t
  closes :
      (c : Connection) (s' : Server)
      → Memᴰ c s.connections
      → websocket_disconnect s c ≡ some s'
      → t ≡ record s' { connections = without c.ptr s'.connections }
      → Step s t

abbrev pub start : Server
start = record { ab = 0; connections = []; extra = λ p. none }

pub data Reach : Server → Type 0 where
  starts : Reach start
  next : {s t : Server} → Reach s → Step s t → Reach t

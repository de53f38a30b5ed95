-- ===== src/Websocket/Examples.antt =====
-- Kore's writers over bytes, and the theorems on websocket_9/src at concrete frames and servers.
use kore_io_websocket.Base.{
  ℕ, ◌+◌, ◌*◌, ◌/◌, ◌%◌, ◌^◌, ◌<◌, ◌≡◌, refl, List, [], ◌∷◌, some, arith, Memᴰ,
}
use kore_io_websocket.Websocket.Wire.{Wire}
use kore_io_websocket.Websocket.Rooms.{Connection, websocket, broadcast_room}
use kore_io_websocket.Websocket.Sessions.{
  Server, user_id, websocket_connect, websocket_message, websocket_disconnect, clear_extra, Reach,
  start, starts, next, accepts,
}
use kore_io_websocket.Websocket.Sessions.Invariant.{connected, closed}
use kore_io_websocket.Websocket.Sessions.Users.{handlers_total}

abbrev pub byte : ℕ → ℕ → ℕ
byte k n = n / 256 ^ k % 256

abbrev pub write16 : ℕ → List ℕ
write16 n = byte 1 n ∷ byte 0 n ∷ []

abbrev pub write64 : ℕ → List ℕ
write64 n =
    byte 7 n ∷ byte 6 n ∷ byte 5 n ∷ byte 4 n ∷ byte 3 n ∷ byte 2 n ∷ byte 1 n ∷ byte 0 n ∷ []

abbrev pub read_onto : ℕ → List ℕ → ℕ
read_onto v [] = v
read_onto v (b ∷ bs) = read_onto (v * 256 + b) bs

pub read16-write16 : (n : ℕ) → n < 2 ^ 16 → read_onto 0 (write16 n) ≡ n
read16-write16 n h = omega arith

pub read64-write64 : (n : ℕ) → n < 2 ^ 64 → read_onto 0 (write64 n) ≡ n
read64-write64 n h = omega arith

abbrev pub wire : Wire
wire = record {
  broadcast_global = 2;
  write16 = write16;
  write64 = write64;
  read16 = read_onto 0;
  read64 = read_onto 0;
  length-write16 = λ n. refl;
  length-write64 = λ n. refl;
  read16-write16 = read16-write16;
  read64-write64 = read64-write64;
}

-- Two users: the first at the address 10, the second at 20.
abbrev first : Connection
first = record { ptr = 10; proto = websocket; hdlr_extra = 100 }

abbrev second : Connection
second = record { ptr = 20; proto = websocket; hdlr_extra = 200 }

abbrev two_users : Server
two_users = connected (connected start 10 100) 20 200

accepts_first : websocket_connect start 10 100 ≡ some (connected start 10 100, user_id 10 1 46)
unfolding websocket_connect
accepts_first = refl

accepts_second :
    websocket_connect (connected start 10 100) 20 200 ≡ some (two_users, user_id 20 2 46)
unfolding websocket_connect
accepts_second = refl

two_users-Reach : Reach two_users
two_users-Reach =
    next (next starts (accepts 10 100 (user_id 10 1 46) tt tt accepts_first))
      (accepts 20 200 (user_id 20 2 46) (ground arith, tt) (ground arith, tt) accepts_second)

first-live : Memᴰ first two_users.connections
first-live = Memᴰ.tail (Memᴰ.head refl)

second-live : Memᴰ second two_users.connections
second-live = Memᴰ.head refl

handlers_total_example :
    ((t : Server) × (websocket_disconnect two_users first ≡ some t))
    × (websocket_message wire two_users first 1 (some (104 ∷ [])) 1
        ≡ some (broadcast_room wire two_users.connections first 1 (104 ∷ []) 1 1))
handlers_total_example =
    handlers_total wire two_users first 1 1 (104 ∷ []) two_users-Reach first-live

abbrev one_left : Server
one_left = closed two_users first

first_leaves :
    websocket_disconnect two_users first
    ≡ some (record one_left { connections = clear_extra 10 two_users.connections })
unfolding websocket_disconnect
first_leaves = refl

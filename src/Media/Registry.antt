-- ===== src/Media/Registry.antt =====
-- What a user of mediasoup_1/src/kore_media.c counts on: a registry of numbered rooms. `under` gives the
-- room that is kept under a number, `spare` the number of a room that was made and not added yet.
pub mod Represents
pub mod Refines
use kore_io_websocket.Base.{
  ℕ, zero, suc, ◌+◌, ◌<◌, ◌≡◌, ◌≢◌, ◌⊎◌, List, [], ◌∷◌, Option, none, some, ◌==◌, if◌then◌else◌,
}
use kore_io_websocket.Media.{World, M, update, pure, ◌>>=◌, ◌>>◌}
use kore_io_websocket.Media.Table.{HashTable}
use kore_io_websocket.Media.Rooms.{int_max, room_new, add_room_to_media, get_room, close_room}

pub record Registry : Type 0 where
  pub under : ℕ → Option ℕ
  pub spare : ℕ → Option ℕ
  pub last : ℕ

-- The calls, `make` with what `calloc` returns.
pub data Op : Type 0 where
  make : ℕ → Op
  add : ℕ → Op
  get : ℕ → Op
  close : ℕ → Op

abbrev numbered : Option ℕ → ℕ → Registry → Registry
numbered none p s = s
numbered (some b) p s = record s {
  under = update s.under b (some p);
  spare = update s.spare p none;
}

abbrev address : Option ℕ → ℕ
address none = 0
address (some p) = p

-- The registry after a call, and its answer.
abbrev pub after : Op → Registry → Registry
after (make p) s =
    if p == 0
    then s
    else record s { spare = update s.spare p (some (s.last + 1)); last = s.last + 1 }
after (add p) s = numbered (s.spare p) p s
after (get k) s = s
after (close k) s = record s { under = update s.under k none }

abbrev pub answer_of : Op → Registry → ℕ
answer_of (make p) s = p
answer_of (add p) s = 0
answer_of (get k) s = address (s.under k)
answer_of (close k) s = 0

-- A new room lies in memory that no room occupies, numbers do not run out, and only a spare room is
-- added, once.
abbrev pub Allowed : Op → Registry → Type 0
Allowed (make p) s = (s.last < int_max) × (s.spare p ≡ none) × ((k : ℕ) → s.under k ≢ some p)
Allowed (add p) s = (b : ℕ) × (s.spare p ≡ some b)
Allowed (get k) s = Unit
Allowed (close k) s = Unit

module _ (G : HashTable) (m : ℕ) where
  unfoldable pub act : Op → M G.T ℕ
  unfolding room_new add_room_to_media get_room close_room
  act (make p) w = room_new G p w
  act (add p) w = (do add_room_to_media G m p; pure 0) w
  act (get k) w = get_room G m k w
  act (close k) w = (do close_room G m k; pure 0) w

  unfoldable pub run : List Op → M G.T (List ℕ)
  unfolding act
  run [] w = some ([], w)
  run (op ∷ ops) w = (do a ← act op; rest ← run ops; pure (a ∷ rest)) w

unfoldable pub replay : List Op → Registry → Registry
replay [] s = s
replay (op ∷ ops) s = replay ops (after op s)

unfoldable pub answers : List Op → Registry → List ℕ
answers [] s = []
answers (op ∷ ops) s = answer_of op s ∷ answers ops (after op s)

abbrev pub AllAllowed : List Op → Registry → Type 0
AllAllowed [] s = Unit
AllAllowed (op ∷ ops) s = Allowed op s × AllAllowed ops (after op s)

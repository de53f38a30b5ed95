-- ===== src/Soup/Channel/Frame.antt =====
-- What the callback of a client does to the memory, whatever state the client is in.
use mathlib.Core.Path.{fun_ext}
use kore_io_websocket.Base.{ℕ, ◌≡◌, String, none, some, arith}
use kore_io_websocket.Soup.Rooms.{room_new}
use kore_io_websocket.Soup.World.{
  SoupState, init, wait, result, error, done, complete, Soup, World, ok, update,
}
use kore_io_websocket.Soup.Channel.{work_it_out, open_room}

pub update-update {ℓ} :
    {A : Type ℓ} (f : ℕ → A) (p : ℕ) (v w : A) → update (update f p v) p w ≡ update f p w
update-update f p v w = fun_ext λ q. ground arith

-- A room touches the rooms, the data of their events, `malloc` and the trace.
abbrev SameButRoom : World → World → Type 0
SameButRoom w v =
    v ≡ record w { rooms = v.rooms; passes = v.passes; mallocs = v.mallocs; trace = v.trace }

room_new-same : (id ch r : ℕ) (w v : World) → room_new id ch w ≡ ok r v → SameButRoom w v
unfolding room_new
room_new-same id ch r w v h = ground arith

-- What `soup_continue` leaves of a client that the `switch` has seen.
abbrev pub after_switch : SoupState → SoupState
after_switch result = done
after_switch error = done
after_switch init = init
after_switch wait = wait
after_switch done = done
after_switch complete = complete

abbrev pub heard : Soup → Soup
heard s = record s {
  error_text = none;
  result_text = none;
  name = none;
  state = after_switch s.state;
}

-- The callback returns to a world that differs in the client, in a room and in the trace.
abbrev pub Heard : ℕ → Soup → World → World → Type 0
Heard p s w v = v ≡ record w {
  soups = update w.soups p (some (heard s));
  rooms = v.rooms;
  passes = v.passes;
  mallocs = v.mallocs;
  trace = v.trace;
  tmp_room = v.tmp_room;
}

open_room-same :
    (s : Soup) (name : String) (w v : World)
    → open_room s name w ≡ ok tt v
    → v ≡ record w {
      rooms = v.rooms;
      passes = v.passes;
      mallocs = v.mallocs;
      trace = v.trace;
      tmp_room = v.tmp_room;
    }
unfolding open_room
open_room-same s name w v h = ground arith

work_it_out-Heard :
    (p c : ℕ) (s : Soup) (w v : World)
    → w.soups p ≡ some s
    → work_it_out p c w ≡ ok tt v
    → Heard p s w v
unfolding work_it_out
work_it_out-Heard p c s w v e h = ground (arith, update-update w.soups p)

-- ===== src/Soup/Requests/Outcomes.antt =====
-- How a request ends: what the client of a pending letter is told, and what is left of the letter.
use Prim.Native.String.{len}
use text.Mathlib.Text.{◌==◌ as str_eq}
use kore_io_websocket.Base.{
  ℕ, ◌+◌, ◌≡◌, ◌≢◌, List, ◌∷◌, true, false, String, some, ◌==◌, if◌then◌else◌, arith,
}
use kore_io_websocket.Soup.Jansson.{Jansson}
use kore_io_websocket.Soup.Names.{event_name}
use kore_io_websocket.Soup.World.{
  we_can_work_it_out, Soup, Postman, Server, ws_send, ee_on, World, ok, update, disarm,
}
use kore_io_websocket.Soup.Channel.{unlink, set_id, with_error}
use kore_io_websocket.Soup.Channel.Frame.{update-update, heard}
use kore_io_websocket.Soup.Requests.{
  find_letter, timer_fires, invoke_for_dummy, js_get_uint32, if_exist_key, data_text, accepted,
}

-- A letter that waits: its client is alive and bound to the callback, its timer is set.
pub record Pending (w : World) (du : Postman) (s : Soup) (h : ℕ) : Type 0 where
  pub addressed : find_letter du.id w.letters ≡ some du
  pub not_null : du.soupi ≢ 0
  pub alive : w.soups du.soupi ≡ some s
  pub bound : s.cb ≡ some we_can_work_it_out
  pub armed : du.timer ≡ some h
  pub same_id : s.id ≡ du.id

-- The letter is gone with its timer, the client is idle under the id 0, and it was sent one text.
abbrev pub settled : World → Postman → Soup → ℕ → String → ℕ → World
settled w du s h text size = record w {
  soups = update w.soups du.soupi (some (set_id 0 (heard s)));
  letters = unlink du.at w.letters;
  timers = disarm h w.timers;
  trace = ws_send s.arg text size ∷ w.trace;
}

module _ (J : Jansson) (w : World) (du : Postman) (s : Soup) (h ch : ℕ) (root : J.Json)
    (pending : Pending w du s h) where
  -- A response to the letter with "rejected" and without "accepted" sends the client "some_error" once
  -- and settles the letter.
  pub rejected_settles :
      if_exist_key J root "id" ≡ true
      → js_get_uint32 J root "id" ≡ du.id
      → if_exist_key J root "accepted" ≡ false
      → if_exist_key J root "rejected" ≡ true
      → invoke_for_dummy J ch root w
        ≡ ok tt (settled w du (with_error "some_error" s) h "some_error" (len "some_error"))
  unfolding invoke_for_dummy
  rejected_settles has_id id not_accepted rejected = ground (arith, update-update w.soups du.soupi)

  -- The text of "data", or "some data if any", with its NUL.
  abbrev pub told : World
  told = settled w du (accepted J root s) h (data_text J root) (len (data_text J root) + 1)

  -- If the letter asks for a room and memory is there, the room has the number that was asked for, and
  -- its event is listened to under the name of that number.
  pub accepted_opens_room :
      (sv : Server) (r pass : ℕ) (ms : List ℕ)
      → s.name ≡ some "worker.createRoom"
      → w.md_server ≢ 0
      → w.servers w.md_server ≡ some sv
      → sv.ch ≢ 0
      → w.channels sv.ch ≡ true
      → w.mallocs ≡ r ∷ pass ∷ ms
      → r ≢ 0
      → pass ≢ 0
      → if_exist_key J root "id" ≡ true
      → js_get_uint32 J root "id" ≡ du.id
      → if_exist_key J root "accepted" ≡ true
      → invoke_for_dummy J ch root w
        ≡ ok tt (record told {
          rooms = update w.rooms r (some (record { room_id = s.in_id; ch = sv.ch }));
          passes =
              update w.passes pass (some (record { ch = sv.ch; r = r; str = event_name s.in_id }));
          mallocs = ms;
          tmp_room = if w.tmp_room == 0 then r else w.tmp_room;
          trace = ee_on (event_name s.in_id) pass ∷ told.trace;
        })
  unfolding invoke_for_dummy
  accepted_opens_room sv r pass ms named md served channel live memory r_ok pass_ok has_id id
        yes_accepted =
      ground (arith, update-update w.soups du.soupi)

  -- A response with neither member settles the letter too, and the client hears nothing: it is left
  -- in the state that it waited in.
  pub silent_drops :
      if_exist_key J root "id" ≡ true
      → js_get_uint32 J root "id" ≡ du.id
      → if_exist_key J root "accepted" ≡ false
      → if_exist_key J root "rejected" ≡ false
      → invoke_for_dummy J ch root w
        ≡ ok tt (record w {
          soups = update w.soups du.soupi (some (set_id 0 s));
          letters = unlink du.at w.letters;
          timers = disarm h w.timers;
        })
  unfolding invoke_for_dummy
  silent_drops has_id id not_accepted not_rejected = ground arith

-- The timer of a waiting letter fires: the client is sent "***TIMEOUT!***" once and the letter is
-- settled.
pub timeout_settles :
    (w : World) (du : Postman) (s : Soup) (h : ℕ)
    → Pending w du s h
    → timer_fires (record { handle = h; arg = du.soupi }) w
      ≡ ok tt
          (settled w du (with_error "***TIMEOUT!***" s) h "***TIMEOUT!***" (len "***TIMEOUT!***"))
unfolding timer_fires
timeout_settles w du s h pending = ground (arith, update-update w.soups du.soupi)

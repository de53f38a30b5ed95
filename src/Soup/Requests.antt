-- ===== src/Soup/Requests.antt =====
-- mediasoup/src/channel.c: sending a request, and what ends it.
pub mod Closing
pub mod Outcomes
pub mod Responses
pub mod Sending
pub mod Texts
use mathlib.Core.Option
use kore_io_websocket.Base.{
  ℕ, ◌%◌, ◌^◌, List, [], ◌∷◌, Bool, true, false, ◌&&◌, String, Option, none, some, ◌==◌,
  if◌then◌else◌,
}
use kore_io_websocket.Soup.Jansson.{Jansson, set_new}
use kore_io_websocket.Soup.Names.{event_name}
use kore_io_websocket.Soup.World.{
  result, error, Callback, Soup, Postman, Timer, ee_emit, ok, M, pure, when◌run◌otherwise◌, ◌>>=◌,
  ◌>>◌, gets, emit, malloc, fire, timer_add, timer_remove, disarm, load_soup, load_server,
  load_channel,
}
use kore_io_websocket.Soup.Channel.{
  modify_soup, soup_set_error, call, list_remove, list_insert_head, new_id, set_id, waiting,
  set_state,
}

abbrev pub find_letter : ℕ → List Postman → Option Postman
find_letter id [] = none
find_letter id (l ∷ ls) = if l.id == id then some l else find_letter id ls

-- The request was not taken: the letter is withdrawn and the client hears of an error.
send_failed : ℕ → ℕ → ℕ → M (Unit {0})
unfolding list_remove timer_remove soup_set_error load_soup call modify_soup
send_failed p db h = do
  list_remove db
  timer_remove (some h)
  soup_set_error p "data to send failed."
  s ← load_soup p
  call s.cb p s.arg
  modify_soup p (set_id 0)

after_fire : ℕ → ℕ → ℕ → ℕ → M (Unit {0})
unfolding send_failed
after_fire rc p db h = when rc == 0 run pure tt otherwise send_failed p db h

withdraw : ℕ → Option Postman → M (Unit {0})
unfolding list_remove modify_soup
withdraw p none w = ok tt w
withdraw p (some du) w = (do list_remove du.at; modify_soup p (set_id 0)) w

-- Kore has taken the timer off, as it fires once.
unfoldable pub on_timeout : ℕ → M (Unit {0})
unfolding soup_set_error load_soup call withdraw
on_timeout p = do
  soup_set_error p "***TIMEOUT!***"
  s ← load_soup p
  call s.cb p s.arg
  s' ← load_soup p
  letters ← gets (λ w. w.letters)
  withdraw p (find_letter s'.id letters)

unfoldable pub timer_fires : Timer → M (Unit {0})
unfolding on_timeout disarm
timer_fires t w = on_timeout t.arg (record w { timers = disarm t.handle w.timers })

set_letters : List Postman → M (Unit {0})
set_letters ls w = ok tt (record w { letters = ls })

stop_timer : Option ℕ → M (Unit {0})
unfolding timer_remove
stop_timer none w = ok tt w
stop_timer (some h) w = timer_remove (some h) w

-- The loop of `pending_close`, over the letters that it takes off one by one.
close_letters : List Postman → M ℕ
unfolding set_letters stop_timer
close_letters [] w = ok 0 w
close_letters (l ∷ ls) w =
    let rest = close_letters ls in (do set_letters ls; stop_timer l.timer; rest) w

unfoldable pub pending_close : M ℕ
unfolding close_letters
pending_close = do letters ← gets (λ w. w.letters); close_letters letters

module _ (J : Jansson) where
  open J use {Json, object, string, integer, object_set, object_get, integer_value, dumps, loads}

  unfoldable pub request_json : Option String → ℕ → Json → Option Json → Json
  request_json name id internal content =
      let with_method = set_new J object "method" (Option.map string name) in
      let with_id = object_set with_method "id" (integer id) in
      let with_internal = object_set with_id "internal" internal in
      set_new J with_internal "data" content

  -- The request, once memory for its letter is there. A client that has an id already asks under 0.
  send_letter : ℕ → Soup → ℕ → String → Json → M (Unit {0})
  unfolding request_json new_id modify_soup timer_add list_insert_head fire after_fire
  send_letter p s db options internal = do
    req_id ← (when s.id == 0 run new_id otherwise pure 0)
    modify_soup p (waiting req_id)
    h ← timer_add p
    list_insert_head (record { at = db; id = req_id; soupi = p; timer = some h })
    rc ← fire (dumps (request_json s.name req_id internal (loads options)))
    after_fire rc p db h

  unfoldable pub channel_send : ℕ → String → Json → M (Unit {0})
  unfolding load_soup malloc send_letter
  channel_send p options internal = do
    s ← load_soup p
    db ← malloc
    when db == 0 run pure tt otherwise send_letter p s db options internal

  abbrev pub if_exist_key : Json → String → Bool
  if_exist_key root key = elim (object_get root key) [ none ↦ false | some v ↦ true ]

  abbrev pub as_uint32 : Option ℕ → ℕ
  as_uint32 none = 0
  as_uint32 (some n) = n % 2 ^ 32

  -- 0 stands for a key that is missing or no integer too.
  unfoldable pub js_get_uint32 : Json → String → ℕ
  js_get_uint32 root key = as_uint32 (Option.bind (object_get root key) integer_value)

  -- The text of the member "data".
  abbrev pub data_text : Json → String
  data_text root = elim (Option.bind (object_get root "data") dumps) [
    | none ↦ "some data if any"
    | some text ↦ text
  ]

  call_if_bound : Option Callback → ℕ → ℕ → M (Unit {0})
  unfolding call
  call_if_bound none p arg w = ok tt w
  call_if_bound (some cb) p arg w = call (some cb) p arg w

  -- `if(du->soupi->cb !=NULL)du->soupi->cb(...)`. Without a callback the text that was kept is freed
  -- too; every client has one.
  call_back : ℕ → M (Unit {0})
  unfolding load_soup call_if_bound
  call_back p = do s ← load_soup p; call_if_bound s.cb p s.arg

  abbrev pub accepted : Json → Soup → Soup
  accepted root s = record s { result_text = some (data_text root); state = result }

  hand_out : Json → ℕ → M (Unit {0})
  unfolding modify_soup soup_set_error call_back
  hand_out root p =
      when if_exist_key root "accepted"
      run (do modify_soup p (accepted root); call_back p)
      otherwise when if_exist_key root "rejected"
      run (do modify_soup p (set_state error); soup_set_error p "some_error"; call_back p)
      otherwise pure tt

  answer : Json → Postman → M (Unit {0})
  unfolding hand_out timer_remove modify_soup list_remove
  answer root du = do
    hand_out root du.soupi
    timer_remove du.timer
    modify_soup du.soupi (set_id 0)
    list_remove du.at

  respond : Json → Option Postman → M (Unit {0})
  unfolding answer
  respond root none w = ok tt w
  respond root (some du) w = (when du.soupi == 0 run pure tt otherwise answer root du) w

  unfoldable pub invoke_for_dummy : ℕ → Json → M (Unit {0})
  unfolding js_get_uint32 respond load_channel
  invoke_for_dummy ch root =
      when if_exist_key root "id"
      run (do
        letters ← gets (λ w. w.letters)
        respond root (find_letter (js_get_uint32 root "id") letters))
      otherwise when if_exist_key root "targetId" && if_exist_key root "event"
      run (do load_channel ch; emit (ee_emit (event_name (js_get_uint32 root "targetId"))))
      otherwise pure tt

  deliver : ℕ → Option Json → M (Unit {0})
  unfolding load_server invoke_for_dummy
  deliver md none w = ok tt w
  deliver md (some root) w =
      (do
        server ← load_server md
        when server.ch == 0 run pure tt otherwise invoke_for_dummy server.ch root)
        w

  unfoldable pub on_from_cpp : Option String → M (Unit {0})
  unfolding deliver
  on_from_cpp none w = ok tt w
  on_from_cpp (some text) w =
      (do md ← gets (λ w. w.md_server); when md == 0 run pure tt otherwise deliver md (loads text))
        w

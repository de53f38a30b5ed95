-- ===== src/Soup/Channel.antt =====
-- mediasoup/src/channel.c and the callback of mediasoup/src/mediasoup.c: a request to the C++ side is
-- a letter in the list `letters` with a timer, until its response, its timeout or the end.
pub mod Frame
pub mod Ids
use kore_io_websocket.Base.{
  ℕ, zero, suc, ◌+◌, List, [], ◌∷◌, Bool, true, false, String, Option, none, some, ◌==◌,
  if◌then◌else◌, length,
}
use Prim.Native.String.{len}
use text.Mathlib.Text.{◌==◌ as str_eq}
use kore_io_websocket.Soup.Random.{random_u32}
use kore_io_websocket.Soup.Rooms.{room_new}
use kore_io_websocket.Soup.World.{
  SoupState, init, wait, result, error, done, complete, Callback, we_can_work_it_out, Soup, Postman,
  ws_send, ok, starved, M, pure, fault, when◌run◌otherwise◌, ◌>>=◌, ◌>>◌, gets, emit, load_soup,
  store_soup, load_server, load_text,
}

-- A change of one `soup` in memory.
unfoldable pub modify_soup : ℕ → (Soup → Soup) → M (Unit {0})
unfolding load_soup store_soup
modify_soup p f = do s ← load_soup p; store_soup p (f s)

abbrev pub with_error : String → Soup → Soup
with_error msg s = record s { error_text = some msg; state = error }

unfoldable pub soup_set_error : ℕ → String → M (Unit {0})
unfolding modify_soup
soup_set_error p msg = modify_soup p (with_error msg)

-- `soup_handle` and `soup_release`, which the `switch` calls, only print.
abbrev pub emptied : Soup → Soup
emptied s = record s { error_text = none; result_text = none; name = none }

unfoldable pub soup_continue : ℕ → M (Unit {0})
unfolding modify_soup
soup_continue p = modify_soup p emptied

-- `if(tmp_room==NULL)tmp_room=sroom;`
keep_room : ℕ → M (Unit {0})
keep_room r w = ok tt (record w { tmp_room = if w.tmp_room == 0 then r else w.tmp_room })

-- A room for the client, if the request was for one.
open_room : Soup → String → M (Unit {0})
unfolding keep_room load_server room_new
open_room s name =
    when str_eq name "worker.createRoom"
    run (do
      md ← gets (λ w. w.md_server)
      server ← load_server md
      r ← room_new s.in_id server.ch
      keep_room r)
    otherwise pure tt

abbrev pub set_state : SoupState → Soup → Soup
set_state st s = record s { state = st }

send_error : Option String → ℕ → M (Unit {0})
send_error none c w = ok tt w
send_error (some text) c w = emit (ws_send c text (len text)) w

-- The cases of the `switch` of `we_can_work_it_out`.
on_result : ℕ → Soup → ℕ → M (Unit {0})
unfolding load_text open_room modify_soup
on_result p s c = do
  text ← load_text s.result_text
  emit (ws_send c text (len text + 1))
  name ← load_text s.name
  open_room s name
  modify_soup p (set_state done)

on_error : ℕ → Soup → ℕ → M (Unit {0})
unfolding send_error modify_soup
on_error p s c = do send_error s.error_text c; modify_soup p (set_state done)

dispatch : SoupState → ℕ → Soup → ℕ → M (Unit {0})
unfolding on_result on_error
dispatch init p s c w = ok tt w
dispatch wait p s c w = ok tt w
dispatch result p s c w = on_result p s c w
dispatch done p s c w = ok tt w
dispatch complete p s c w = ok tt w
dispatch error p s c w = on_error p s c w

unfoldable pub work_it_out : ℕ → ℕ → M (Unit {0})
unfolding load_soup dispatch soup_continue
work_it_out p c = do s ← load_soup p; dispatch s.state p s c; soup_continue p

-- `s->cb(s, s->arg)`
unfoldable pub call : Option Callback → ℕ → ℕ → M (Unit {0})
unfolding work_it_out
call none p arg w = fault
call (some we_can_work_it_out) p arg w = work_it_out p arg w

abbrev pub id_lookup : ℕ → List Postman → Bool
id_lookup id [] = false
id_lookup id (l ∷ ls) = if l.id == id then true else id_lookup id ls

-- `LIST_REMOVE`, by the address of the letter.
unfoldable pub unlink : ℕ → List Postman → List Postman
unlink at [] = []
unlink at (l ∷ ls) = if l.at == at then ls else l ∷ unlink at ls

unfoldable pub list_remove : ℕ → M (Unit {0})
unfolding unlink
list_remove at w = ok tt (record w { letters = unlink at w.letters })

unfoldable pub list_insert_head : Postman → M (Unit {0})
list_insert_head l w = ok tt (record w { letters = l ∷ w.letters })

-- `while(req_id == 0)`: numbers are drawn until one is no letter's. A draw uses up a value of
-- `rand()`, so the length of their list is fuel enough.
unfoldable pub draw_id : ℕ → List ℕ → List Postman → Option (ℕ × List ℕ)
draw_id zero rands letters = none
draw_id (suc fuel) rands letters = elim (random_u32 rands) [
  | none ↦ none
  | some (r, rest) ↦ elim (id_lookup r letters) [
    | true ↦ draw_id fuel rest letters
    | false ↦ some (r, rest)
  ]
]

unfoldable pub new_id : M ℕ
unfolding draw_id
new_id w = elim (draw_id (suc (length w.rands)) w.rands w.letters) [
  | none ↦ starved
  | some (r, rest) ↦ ok r (record w { rands = rest })
]

abbrev pub set_id : ℕ → Soup → Soup
set_id id s = record s { id = id }

abbrev pub waiting : ℕ → Soup → Soup
waiting id s = record s { id = id; state = wait }

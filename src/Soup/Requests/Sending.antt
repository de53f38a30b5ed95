-- ===== src/Soup/Requests/Sending.antt =====
-- Sending a request: `channel_send` of mediasoup/src/channel.c, where the C++ side takes the text and
-- where it does not.
use Prim.Native.String.{len}
use kore_io_websocket.Base.{
  ℕ, suc, ◌≤◌, ◌≡◌, refl, ◌≢◌, List, ◌∷◌, false, String, Option, some, arith, length,
}
use kore_io_websocket.Soup.Jansson.{Jansson}
use kore_io_websocket.Soup.Random.{id_min, id_max}
use kore_io_websocket.Soup.World.{
  we_can_work_it_out, Soup, Postman, Timer, ws_send, fire_to_cpp, World, ok, update, disarm,
}
use kore_io_websocket.Soup.Channel.{unlink, id_lookup, draw_id, set_id, with_error, waiting}
use kore_io_websocket.Soup.Channel.Frame.{update-update, heard}
use kore_io_websocket.Soup.Channel.Ids.{draw_id_fresh}
use kore_io_websocket.Soup.Requests.{channel_send, send_failed, request_json}
use kore_io_websocket.Soup.Requests.Outcomes.{Pending}

-- An idle client and the answers of the system to its request: memory at `db`, the id `r`, the timer
-- `h` and the code `rc` of `uv_callback_fire`.
pub record Ready (w : World) (p : ℕ) (s : Soup) (db r h rc : ℕ) (ms rs hs fs : List ℕ)
    : Type 0 where
  pub not_null : p ≢ 0
  pub alive : w.soups p ≡ some s
  pub idle : s.id ≡ 0
  pub bound : s.cb ≡ some we_can_work_it_out
  pub memory : w.mallocs ≡ db ∷ ms
  pub memory_ok : db ≢ 0
  pub drawn : draw_id (suc (length w.rands)) w.rands w.letters ≡ some (r, rs)
  pub timer : w.handles ≡ h ∷ hs
  pub answer : w.fires ≡ rc ∷ fs

abbrev pub letter : ℕ → ℕ → ℕ → ℕ → Postman
letter db r p h = record { at = db; id = r; soupi = p; timer = some h }

-- `send_failed`, after the letter and the timer were put in front.
send_failed_lem :
    (v : World) (p db h : ℕ) (s : Soup) (l : Postman) (ls : List Postman) (t : Timer)
    (ts : List Timer)
    → p ≢ 0
    → v.soups p ≡ some s
    → s.cb ≡ some we_can_work_it_out
    → v.letters ≡ l ∷ ls
    → l.at ≡ db
    → v.timers ≡ t ∷ ts
    → t.handle ≡ h
    → send_failed p db h v
      ≡ ok tt (record v {
        soups = update v.soups p (some (set_id 0 (heard (with_error "data to send failed." s))));
        letters = ls;
        timers = ts;
        trace = ws_send s.arg "data to send failed." (len "data to send failed.") ∷ v.trace;
      })
unfolding send_failed unlink disarm
send_failed_lem v p db h s l ls t ts not_null alive bound a b c d =
    let ls' : unlink db v.letters ≡ ls = ground arith in
    let ts' : disarm h v.timers ≡ ts = ground arith in ground (arith, update-update v.soups p)

module _ (J : Jansson) (w : World) (p : ℕ) (s : Soup) (db r h rc : ℕ) (ms rs hs fs : List ℕ)
    (ready : Ready w p s db r h rc ms rs hs fs) (options : String) (internal : J.Json) where
  abbrev pub request : Option String
  request = J.dumps (request_json J s.name r internal (J.loads options))

  abbrev pub sent : World
  sent = record w {
    soups = update w.soups p (some (waiting r s));
    letters = letter db r p h ∷ w.letters;
    timers = record { handle = h; arg = p } ∷ w.timers;
    mallocs = ms;
    rands = rs;
    handles = hs;
    fires = fs;
    trace = fire_to_cpp request ∷ w.trace;
  }

  -- A request that is taken is sent once under a fresh id of eight digits. Its letter waits at the head
  -- of the list, found by that id, with the client and the timer.
  pub send_waits :
      rc ≡ 0
      → (channel_send J p options internal w ≡ ok tt sent)
        × Pending sent (letter db r p h) (waiting r s) h
        × (id_min ≤ r)
        × (r ≤ id_max)
        × (id_lookup r w.letters ≡ false)
  unfolding channel_send
  send_waits taken =
      let fresh = draw_id_fresh (suc (length w.rands)) w.rands w.letters ready.drawn in
      (
        ground arith,
        record {
          addressed = ground arith;
          not_null = ready.not_null;
          alive = ground arith;
          bound = ready.bound;
          armed = refl;
          same_id = refl;
        },
        fresh.0,
        fresh.1,
        fresh.2,
      )

  -- A request that is not taken leaves the letters and the timers as they were; the client hears
  -- "data to send failed." and is idle again.
  pub send_fails :
      rc ≢ 0
      → channel_send J p options internal w
        ≡ ok tt (record sent {
          soups =
              update w.soups p
                (some (set_id 0 (heard (with_error "data to send failed." (waiting r s)))));
          letters = w.letters;
          timers = w.timers;
          trace =
              ws_send s.arg "data to send failed." (len "data to send failed.")
              ∷ fire_to_cpp request
              ∷ w.trace;
        })
  unfolding channel_send
  send_fails refused =
      let told =
        send_failed_lem sent p db h (waiting r s) (letter db r p h) w.letters
          (record { handle = h; arg = p }) w.timers in
      ground (arith, told, update-update w.soups p)

-- ===== src/Soup/Requests/Responses.antt =====
-- What any response of the C++ side, any message and any timeout does to the letters of
-- mediasoup/src/channel.c, whatever else it does.
use kore_io_websocket.Base.{ℕ, ◌≡◌, ◌≢◌, true, false, none, arith}
use kore_io_websocket.Soup.Jansson.{Jansson}
use kore_io_websocket.Soup.World.{Soup, Postman, World, ok, disarm}
use kore_io_websocket.Soup.Channel.{unlink}
use kore_io_websocket.Soup.Requests.{find_letter, invoke_for_dummy, js_get_uint32, if_exist_key}
use kore_io_websocket.Soup.Requests.Outcomes.{Pending}

-- The letter `du` is gone with its timer `h`; only its client has changed.
pub record Gone (w v : World) (du : Postman) (h : ℕ) : Type 0 where
  pub letters : v.letters ≡ unlink du.at w.letters
  pub timers : v.timers ≡ disarm h w.timers
  pub others : (q : ℕ) → q ≢ du.soupi → v.soups q ≡ w.soups q

-- Letters, timers and clients are as they were.
pub record Same (w v : World) : Type 0 where
  pub letters : v.letters ≡ w.letters
  pub timers : v.timers ≡ w.timers
  pub soups : v.soups ≡ w.soups

module _ (J : Jansson) where
  pub response-Gone :
      (w v : World) (du : Postman) (s : Soup) (h ch : ℕ) (root : J.Json)
      → Pending w du s h
      → if_exist_key J root "id" ≡ true
      → js_get_uint32 J root "id" ≡ du.id
      → invoke_for_dummy J ch root w ≡ ok tt v
      → Gone w v du h
  unfolding invoke_for_dummy
  response-Gone w v du s h ch root pending has_id id e = record {
    letters = ground arith;
    timers = ground arith;
    others = λ q apart. ground arith;
  }

  pub response-Same :
      (w v : World) (ch : ℕ) (root : J.Json)
      → find_letter (js_get_uint32 J root "id") w.letters ≡ none
      → invoke_for_dummy J ch root w ≡ ok tt v
      → Same w v
  unfolding invoke_for_dummy
  response-Same w v ch root unknown e = record {
    letters = ground arith;
    timers = ground arith;
    soups = ground arith;
  }

  pub event-Same :
      (w v : World) (ch : ℕ) (root : J.Json)
      → if_exist_key J root "id" ≡ false
      → invoke_for_dummy J ch root w ≡ ok tt v
      → Same w v
  unfolding invoke_for_dummy
  event-Same w v ch root no_id e = record {
    letters = ground arith;
    timers = ground arith;
    soups = ground arith;
  }

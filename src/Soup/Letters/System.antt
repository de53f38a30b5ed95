-- ===== src/Soup/Letters/System.antt =====
-- The letters of mediasoup/src at work: what Kore, the C++ side and the clients do, in any order.
pub mod Invariant
pub mod Reachable
use kore_io_websocket.Base.{ℕ, ◌≡◌, ◌≢◌, List, [], ◌∷◌, String, Option, none, some, Absent, Memᴰ}
use kore_io_websocket.Soup.Jansson.{Jansson}
use kore_io_websocket.Soup.World.{Soup, Timer, World, ok}
use kore_io_websocket.Soup.Requests.{timer_fires, invoke_for_dummy}
use kore_io_websocket.Soup.Server.{websocket_connect}
use kore_io_websocket.Soup.Clients.{websocket_message, websocket_disconnect}
use kore_io_websocket.Soup.Letters.{place, owner, handle_of}

module _ (J : Jansson) where
  -- One event that comes to its end. A new client gets memory and a timer that are not in use. A
  -- client that leaves has no letter: see `disconnect_dangles` for one that has.
  pub data Step (w v : World) : Type 0 where
    connects :
        (options : String) (c p db h : ℕ) (ms hs : List ℕ)
        → w.mallocs ≡ p ∷ db ∷ ms
        → w.handles ≡ h ∷ hs
        → w.soups p ≡ none
        → Absent place db w.letters
        → Absent handle_of h w.timers
        → websocket_connect J options c w ≡ ok tt v
        → Step w v
    responds : (ch : ℕ) (root : J.Json) → invoke_for_dummy J ch root w ≡ ok tt v → Step w v
    expires : (t : Timer) → Memᴰ t w.timers → timer_fires t w ≡ ok tt v → Step w v
    says :
        (c op len : ℕ) (data_ : Option String)
        → websocket_message J c op data_ len w ≡ ok tt v
        → Step w v
    leaves :
        (c : ℕ)
        → Absent owner (w.hdlr_extra c) w.letters
        → websocket_disconnect c w ≡ ok tt v
        → Step w v

  -- A worker begins without letters and timers.
  pub data Reach : World → Type 0 where
    starts : (w : World) → w.letters ≡ [] → w.timers ≡ [] → Reach w
    next : {w v : World} → Reach w → Step w v → Reach v

-- ===== src/Soup/World.antt =====
-- The memory that the mediasoup client works on, and the monad of its code. An address is a number, 0
-- is NULL. A run is a `fault` where the code reads through NULL or through memory that was freed, and
-- `starved` where a list of outside answers (of `malloc`, `rand`, `kore_timer_add`,
-- `uv_callback_fire`) is at its end.
use kore_io_websocket.Base.{ℕ, List, [], ◌∷◌, Bool, String, Option, none, some, ◌==◌, if◌then◌else◌}

-- soup_server.h, SOUP_STATE_INIT to SOUP_STATE_COMPLETE
pub data SoupState : Type 0 where
  init wait result error done complete : SoupState

-- The functions that a `cb` points to.
pub data Callback : Type 0 where
  we_can_work_it_out : Callback

-- struct soup
pub record Soup : Type 0 where
  pub conn : ℕ
  pub state : SoupState
  pub id : ℕ
  pub in_id : ℕ
  pub error_text : Option String
  pub name : Option String
  pub arg : ℕ
  pub cb : Option Callback
  pub result_text : Option String

-- struct postman, at the address `at`
pub record Postman : Type 0 where
  pub at : ℕ
  pub id : ℕ
  pub soupi : ℕ
  pub timer : Option ℕ

-- A timer of Kore that is armed with `on_timeout`: its handle and its argument.
pub record Timer : Type 0 where
  pub handle : ℕ
  pub arg : ℕ

-- struct room; its name is always "globik"
pub record Room : Type 0 where
  pub room_id : ℕ
  pub ch : ℕ

-- struct passData
pub record PassData : Type 0 where
  pub ch : ℕ
  pub r : ℕ
  pub str : List ℕ

-- struct server
pub record Server : Type 0 where
  pub ch : ℕ

-- Calls that leave the client: to a websocket (a text and its length), to the C++ side, to the event
-- emitter, to the C++ worker.
pub data Event : Type 0 where
  ws_send : ℕ → String → ℕ → Event
  ws_send_back : ℕ → ℕ → String → ℕ → Event
  fire_to_cpp : Option String → Event
  ee_on : List ℕ → ℕ → Event
  ee_emit : List ℕ → Event
  ee_remove_all_listeners : List ℕ → Event
  soup_shutdown : ℕ → Event
  utils_crypto_class_destroy : Event

pub record World : Type 0 where
  pub soups : ℕ → Option Soup
  pub rooms : ℕ → Option Room
  pub passes : ℕ → Option PassData
  pub servers : ℕ → Option Server
  pub channels : ℕ → Bool
  pub hdlr_extra : ℕ → ℕ
  pub letters : List Postman
  pub timers : List Timer
  pub md_server : ℕ
  pub tmp_room : ℕ
  pub soup_unavailable : ℕ
  pub putin : ℕ
  pub need_exit : ℕ
  pub mallocs : List ℕ
  pub rands : List ℕ
  pub handles : List ℕ
  pub fires : List ℕ
  pub trace : List Event

pub data Run (A : Type 0) : Type 0 where
  ok : A → World → Run A
  fault : Run A
  starved : Run A

abbrev pub M : Type 0 → Type 0
M A = World → Run A

abbrev pub pure : {A : Type 0} → A → M A
pure a w = ok a w

abbrev pub crash : {A : Type 0} → M A
crash w = fault

abbrev pub and_then : {A B : Type 0} → Run A → (A → M B) → Run B
and_then (ok a w) k = k a w
and_then fault k = fault
and_then starved k = starved

infixl 5 ◌>>=◌ ◌>>◌
abbrev pub ◌>>=◌ : {A B : Type 0} → M A → (A → M B) → M B
◌>>=◌ m k w = and_then (m w) k

abbrev pub ◌>>◌ : {A B : Type 0} → M A → M B → M B
m >> k = m >>= λ _. k

-- `if` over code.
infix 1 when◌run◌otherwise◌
abbrev pub when◌run◌otherwise◌ : {A : Type 0} → Bool → M A → M A → M A
when◌run◌otherwise◌ b m n w = if b then m w else n w

abbrev pub gets : {A : Type 0} → (World → A) → M A
gets f w = ok (f w) w

abbrev pub update {ℓ} : {A : Type ℓ} → (ℕ → A) → ℕ → A → ℕ → A
update f p v q = if p == q then v else f q

abbrev pub emit : Event → M (Unit {0})
emit e w = ok tt (record w { trace = e ∷ w.trace })

-- `malloc`, which may return NULL, and `kore_calloc`, which does not.
abbrev pub take_malloc : List ℕ → M ℕ
take_malloc [] w = starved
take_malloc (p ∷ ps) w = ok p (record w { mallocs = ps })

unfoldable pub malloc : M ℕ
malloc w = take_malloc w.mallocs w

abbrev pub take_fire : List ℕ → Option String → M ℕ
take_fire [] text w = starved
take_fire (rc ∷ rcs) text w = ok rc (record w { fires = rcs; trace = fire_to_cpp text ∷ w.trace })

-- uv_callback_fire(&to_cpp, text, NULL)
unfoldable pub fire : Option String → M ℕ
fire text w = take_fire w.fires text w

abbrev pub take_handle : List ℕ → ℕ → M ℕ
take_handle [] arg w = starved
take_handle (h ∷ hs) arg w =
    ok h (record w { handles = hs; timers = record { handle = h; arg = arg } ∷ w.timers })

-- kore_timer_add(on_timeout, 16000, arg, 1)
unfoldable pub timer_add : ℕ → M ℕ
timer_add arg w = take_handle w.handles arg w

unfoldable pub disarm : ℕ → List Timer → List Timer
disarm h [] = []
disarm h (t ∷ ts) = if t.handle == h then ts else t ∷ disarm h ts

-- kore_timer_remove, which reads its argument
unfoldable pub timer_remove : Option ℕ → M (Unit {0})
timer_remove none w = fault
timer_remove (some h) w = ok tt (record w { timers = disarm h w.timers })

abbrev pub read : {A : Type 0} → Option A → M A
read none w = fault
read (some a) w = ok a w

-- `p->…`, a fault at NULL and where nothing is allocated.
unfoldable pub load_soup : ℕ → M Soup
load_soup p w = if p == 0 then fault else read (w.soups p) w

unfoldable pub store_soup : ℕ → Soup → M (Unit {0})
store_soup p s w = ok tt (record w { soups = update w.soups p (some s) })

unfoldable pub load_room : ℕ → M Room
load_room p w = if p == 0 then fault else read (w.rooms p) w

unfoldable pub load_pass : ℕ → M PassData
load_pass p w = if p == 0 then fault else read (w.passes p) w

unfoldable pub load_server : ℕ → M Server
load_server p w = if p == 0 then fault else read (w.servers p) w

-- `ch->…`
unfoldable pub load_channel : ℕ → M (Unit {0})
load_channel p w = if p == 0 then fault else if w.channels p then ok tt w else fault

-- The text behind a pointer that is read.
unfoldable pub load_text : Option String → M String
load_text none w = fault
load_text (some t) w = ok t w

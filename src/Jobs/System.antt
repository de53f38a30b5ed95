-- ===== src/Jobs/System.antt =====
-- websocket_13 between its handlers: what the timer, the library of the database and Kore may do next,
-- and what they keep to.
pub mod Touched
pub mod Keeps
pub mod Callback
pub mod Runs
use text.Mathlib.Text.{◌==◌ as str_eq}
use kore_io_websocket.Base.{
  ℕ, suc, ◌+◌, ◌<◌, ◌≡◌, ◌≢◌, ◌⊎◌, List, [], ◌∷◌, String, Option, none, some, ◌==◌, if◌then◌else◌,
}
use kore_io_websocket.Auth.Request.{result}
use kore_io_websocket.Jobs.Database.{Database}
use kore_io_websocket.Jobs.{
  World, Handle, Arg, to_nothing, to_boss, to_connection, BossFail, no_job, Call, kore_strdup,
  kore_free, q_name, q_fucker, q_subscribe, q_on_boss_job_fail, store, load,
}
use kore_io_websocket.Jobs.Sending.{tick}
use kore_io_websocket.Jobs.Callbacks.{db_state_change}
use kore_io_websocket.Jobs.Connections.{websocket_connect, websocket_message, websocket_disconnect}

-- The copies that were made, and those that were freed.
abbrev pub copies : Call → ℕ
copies (kore_strdup text) = 1
copies _ = 0

abbrev pub frees : Call → ℕ
frees (kore_free (some text)) = 1
frees _ = 0

abbrev pub sum : (Call → ℕ) → List Call → ℕ
sum f [] = 0
sum f (c ∷ cs) = f c + sum f cs

abbrev pub copied : List Call → ℕ
copied cs = sum copies cs

abbrev pub freed : List Call → ℕ
freed cs = sum frees cs

abbrev pub one_if : Option String → ℕ
one_if none = 0
one_if (some text) = 1

abbrev pub held : BossFail → ℕ
held b = one_if b.jobid + one_if b.name + one_if b.content

-- The timer fires; the library moves the client `a` to `p` and calls back, `new` being what
-- `kore_calloc` would return; a websocket opens, speaks, closes.
pub data Event (Pg : Type 0) : Type 0 where
  ticks : Event Pg
  calls_back : ℕ → ℕ → Pg → Event Pg
  connects : ℕ → ℕ → Event Pg
  says : ℕ → ℕ → String → Event Pg
  leaves : ℕ → Event Pg

module _ (D : Database) where
  open D use {Pg, state, conn_name, ntuples}

  abbrev pub Free : ℕ → World Pg → Type 0
  Free a w = (a ≢ 0) × (w.handles a ≡ none)

  -- The connection that the library has for a client, and the rows that it brings: the client of the
  -- poll is on "subscribe", and brings a job only when no job is worked on; a client without argument
  -- reports a job or listens; that of a websocket brings one row at least.
  abbrev pub Proper : Arg → Pg → World Pg → Type 0
  Proper to_boss p w =
      (conn_name p ≡ q_subscribe) × ((state p ≢ result) ⊎ ((ntuples p ≢ 1) ⊎ (w.boss ≡ no_job)))
  Proper to_nothing p w =
      (conn_name p ≡ q_on_boss_job_fail) ⊎ ((conn_name p ≡ q_fucker) × (state p ≢ result))
  Proper (to_connection c) p w = (conn_name p ≡ q_name) × ((state p ≢ result) ⊎ (0 < ntuples p))

  abbrev pub Allowed : Event Pg → World Pg → Type 0
  Allowed ticks w = Unit
  Allowed (calls_back new a p) w =
      Free new w × (h : Handle Pg) × (load a w ≡ some h) × Proper h.arg p w
  Allowed (connects c new) w = Free new w × (w.hdlr_extra c ≡ 0)
  Allowed (says c op text) w = Unit
  Allowed (leaves c) w = Unit

  abbrev pub moved : ℕ → Pg → Option (Handle Pg) → World Pg → World Pg
  moved a p none w = w
  moved a p (some h) w = store a (some (record h { pg = p })) w

  module _ (next_job report : String) (poll : ℕ) where
    unfoldable pub perform : Event Pg → World Pg → Option (World Pg)
    unfolding tick db_state_change websocket_connect websocket_message websocket_disconnect
    perform ticks w = tick D next_job poll w
    perform (calls_back new a p) w = db_state_change D report new a (moved a p (load a w) w)
    perform (connects c new) w = websocket_connect D c new w
    perform (says c op text) w = websocket_message D c op text w
    perform (leaves c) w = websocket_disconnect D c w

  pub record Kept (poll listener : ℕ) (w : World Pg) : Type 0 where
    pub poll_handle : Handle Pg
    pub polled : load poll w ≡ some poll_handle
    pub for_boss : poll_handle.arg ≡ to_boss
    pub listening : (h : Handle Pg) × (load listener w ≡ some h) × (h.arg ≡ to_nothing)
    pub linked :
        (c : ℕ)
        → w.hdlr_extra c ≢ 0
        → (h : Handle Pg) × (w.handles (w.hdlr_extra c) ≡ some h) × (h.arg ≡ to_connection c)
    pub balanced : copied w.trace ≡ freed w.trace + held w.boss

  -- Events one after the other.
  module _ (next_job report : String) (poll : ℕ) where
    unfoldable pub run : List (Event Pg) → World Pg → Option (World Pg)
    unfolding perform
    run [] w = some w
    run (e ∷ es) w = elim (perform next_job report poll e w) [ none ↦ none | some v ↦ run es v ]

    -- Each event may happen in the world that the ones before it leave.
    unfoldable pub AllAllowed : List (Event Pg) → World Pg → Type 0
    unfolding perform
    AllAllowed [] w = Unit
    AllAllowed (e ∷ es) w =
        Allowed e w
        × (elim (perform next_job report poll e w) [ none ↦ Unit | some v ↦ AllAllowed es v ])

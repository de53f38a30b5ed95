-- ===== src/Jobs/Worker.antt =====
-- websocket_13/src/websocket_13.c, the start of a worker (`kore_worker_configure`), its end (`han`) and
-- its page.
pub mod Lives
use kore_io_websocket.Base.{
  ℕ, List, [], ◌∷◌, Bool, true, false, String, Option, none, some, ◌==◌, if◌then◌else◌, ◌++◌,
}
use kore_io_websocket.Auth.Request.{Method, method_get, method_post, method_other}
use kore_io_websocket.Jobs.Database.{Database}
use kore_io_websocket.Jobs.{
  World, Handle, Call, to_nothing, to_boss, kore_pgsql_cleanup, kore_pgsql_continue, q_fucker,
  q_name, called, store, load, no_job, kore_pgsql_setup, kore_pgsql_query, kore_pgsql_logerror,
}
use kore_io_websocket.Jobs.Sending.{db_query, with_client}

-- The globals: `for_fucker`, `pgsql1`, whether the timer `tim` is armed (with `tick` and `pgsql1`), and
-- whether `boss` is allocated.
pub record Worker (Pg : Type 0) : Type 0 where
  pub for_fucker : ℕ
  pub pgsql1 : ℕ
  pub tim : Bool
  pub boss_there : Bool
  pub world : World Pg

-- What the page answers: a status, with the page or without.
pub data Answer : Type 0 where
  method_not_allowed : Answer
  page_html : Answer

module _ (D : Database) where
  open D use {Pg, cleanup, continue_query}

  abbrev pub armed : ℕ → ℕ → World Pg → Worker Pg
  armed listener poll w = record {
    for_fucker = listener;
    pgsql1 = poll;
    tim = true;
    boss_there = true;
    world = w;
  }

  with_poll : ℕ → ℕ → Option (World Pg) → Option (Worker Pg)
  with_poll listener poll none = none
  with_poll listener poll (some w) =
      some (armed listener poll (with_client D poll to_boss (record w { boss = no_job })))

  -- `listener` and `poll` are what `kore_calloc` returns for the two clients.
  unfoldable pub kore_worker_configure : ℕ → ℕ → World Pg → Option (Worker Pg)
  unfolding with_poll db_query
  kore_worker_configure listener poll w = with_poll listener poll (
      db_query D listener q_fucker "LISTEN revents;LISTEN on_coders"
        (with_client D listener to_nothing w))

  unfoldable pub on_client :
      ℕ → Call → (Pg → Pg) → Option (Handle Pg) → World Pg → Option (World Pg)
  on_client a call change none w = none
  on_client a call change (some h) w =
      some (called (call ∷ []) (store a (some (record h { pg = change h.pg })) w))

  -- A call on a global that is not NULL.
  unfoldable pub give_up : ℕ → Call → (Pg → Pg) → World Pg → Option (World Pg)
  unfolding on_client
  give_up a call change w = if a == 0 then some w else on_client a call change (load a w) w

  ended : Worker Pg → Option (World Pg) → Option (Worker Pg)
  ended k none = none
  ended k (some w) =
      some (record k { for_fucker = 0; pgsql1 = 0; tim = false; boss_there = false; world = w })

  then_cleanup : Worker Pg → Option (World Pg) → Option (World Pg)
  unfolding give_up
  then_cleanup k none = none
  then_cleanup k (some w) = give_up k.pgsql1 (kore_pgsql_cleanup k.pgsql1) cleanup w

  -- `boss` keeps its pointer, but nothing follows.
  unfoldable pub han : Worker Pg → Option (Worker Pg)
  unfolding give_up then_cleanup ended
  han k = ended k (
      then_cleanup k
        (give_up k.for_fucker (kore_pgsql_continue k.for_fucker) continue_query k.world))

  -- What the page does with its client, at the address `sql` on the stack: the query is made, and the
  -- page is answered, whatever fails.
  logged : ℕ → Bool → List Call
  logged sql true = []
  logged sql false = kore_pgsql_logerror sql ∷ []

  unfoldable pub page : (Pg → String → Pg × Bool) → ℕ → Method → Answer × List Call
  unfolding logged
  page setup_sync sql method_get =
      let text : String = "update banners set alt='Amazons'" in
      let opened = setup_sync D.fresh q_name in
      let asked = D.query opened.0 text in
      (
        page_html,
        kore_pgsql_setup sql q_name
            ∷ (logged sql opened.1
                ++ (kore_pgsql_query sql text
                    ∷ (logged sql asked.1 ++ (kore_pgsql_cleanup sql ∷ [])))),
      )
  page setup_sync sql method_post = (method_not_allowed, [])
  page setup_sync sql method_other = (method_not_allowed, [])

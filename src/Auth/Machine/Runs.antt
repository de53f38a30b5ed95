-- ===== src/Auth/Machine/Runs.antt =====
-- The runs of the query machine of auth2/src/auth2.c, with the database between its turns.
use kore_io_websocket.Base.{
  [], ◌∷◌, ◌≡◌, refl, ◌≢◌, inl, inr, [], Bool, true, false, Option, none, some, arith, Option-cases,
}
use kore_io_websocket.Auth.Request.{kore_strdup, kore_pgsql_init, http_state_create, Pgsql}
use kore_io_websocket.Auth.Session.Balance.{opened, closed, copied, freed}
use kore_io_websocket.Auth.Pages.{Assets}
use kore_io_websocket.Auth.Pages.Answers.{answers}
use kore_io_websocket.Auth.Machine.{
  ReqState, req_init, req_query, req_db_wait, req_db_read, req_error, req_done, HttpState,
  state_continue, state_retry, state_complete, Rstate, Machine, mystates, turn,
}

-- The diagram of the machine: where a handler that does not complete the request may leave it.
abbrev pub edge : ReqState → ReqState → Bool
edge req_init req_init = true
edge req_init req_query = true
edge req_init req_error = true
edge req_query req_db_wait = true
edge req_db_wait req_db_wait = true
edge req_db_wait req_db_read = true
edge req_db_wait req_error = true
edge req_db_wait req_done = true
edge req_db_read req_db_wait = true
edge _ _ = false

-- Only these two states complete a request.
abbrev pub last : ReqState → Bool
last req_error = true
last req_done = true
last _ = false

module _ (K : Pgsql) (A : Assets) where
  abbrev pub move : K.Pg → Option (Rstate K.Pg) → Option (Rstate K.Pg)
  move p none = none
  move p (some st) = some (record st { sql = p })

  -- A machine at the start, and after turns that did not complete it and moves of the database.
  pub data Runs : Machine K.Pg → Type 0 where
    starts :
        (st : Rstate K.Pg)
        → Runs (record {
          fsm_state = req_init;
          state = some st;
          calls =
              kore_pgsql_init
              ∷ kore_strdup st.q_name
              ∷ kore_strdup st.query
              ∷ http_state_create
              ∷ [];
        })
    turns :
        {m m' : Machine K.Pg} (v : HttpState)
        → Runs m
        → turn K A m ≡ some (v, m')
        → v ≢ state_complete
        → Runs m'
    moves : {m : Machine K.Pg} (p : K.Pg) → Runs m → Runs (record m { state = move p m.state })

  -- A run that goes on has its state, and has neither answered nor freed or closed anything.
  record Open (m : Machine K.Pg) : Type 0 where
    present : m.state ≢ none
    unanswered : answers m.calls ≡ 0
    kept : freed m.calls ≡ 0
    unclosed : closed m.calls ≡ 0
    texts : copied m.calls ≡ 2
    clients : opened m.calls ≡ 1

  turn-Open :
      (m m' : Machine K.Pg) (v : HttpState)
      → turn K A m ≡ some (v, m')
      → v ≢ state_complete
      → Open m
      → Open m'
  unfolding turn
  turn-Open m m' v e h o = record {
    present = ground arith;
    unanswered = ground arith;
    kept = ground arith;
    unclosed = ground arith;
    texts = ground arith;
    clients = ground arith;
  }

  Runs-Open : (m : Machine K.Pg) → Runs m → Open m
  Runs-Open m (starts st) = record {
    present = ground arith;
    unanswered = refl;
    kept = refl;
    unclosed = refl;
    texts = refl;
    clients = refl;
  }
  Runs-Open m (turns {m = before} {m'} v r e h) = turn-Open before m' v e h (Runs-Open before r)
  Runs-Open m (moves {m = before} p r) =
      let o = Runs-Open before r in
      record {
        present = ground (arith, o.present);
        unanswered = o.unanswered;
        kept = o.kept;
        unclosed = o.unclosed;
        texts = o.texts;
        clients = o.clients;
      }

  -- In each state of a run the handler finds the state of the request, so it returns.
  pub machine_total :
      (m : Machine K.Pg)
      → Runs m
      → (v : HttpState) × (m' : Machine K.Pg) × (turn K A m ≡ some (v, m'))
  unfolding turn
  machine_total m r = elim (Option-cases m.state) [
    | inl e ↦ absurd ((Runs-Open m r).present e)
    | inr (st, e) ↦ let t = mystates K A m.fsm_state st m in (t.0, t.1, ground arith)
  ]

  -- What a turn does to a run, by what its handler returns.
  abbrev pub AfterTurn : HttpState → Machine K.Pg → Machine K.Pg → Type 0
  AfterTurn state_continue m m' =
      (edge m.fsm_state m'.fsm_state ≡ true) × (answers m'.calls ≡ 0) × (m'.state ≢ none)
  AfterTurn state_retry m m' =
      (edge m.fsm_state m'.fsm_state ≡ true) × (answers m'.calls ≡ 0) × (m'.state ≢ none)
  AfterTurn state_complete m m' =
      (last m.fsm_state ≡ true)
      × (answers m'.calls ≡ 1)
      × (freed m'.calls ≡ 2)
      × (copied m'.calls ≡ 2)
      × (closed m'.calls ≡ 1)
      × (opened m'.calls ≡ 1)
      × (m'.state ≡ none)

  -- A turn of a run that does not complete the request goes along an edge of the diagram, without an
  -- answer. One that completes it does so in REQ_STATE_ERROR or REQ_STATE_DONE: the request is then
  -- answered once in all, the two texts of the query that were copied are freed, the database client
  -- that was opened is given back, and the state is gone.
  pub machine_turns :
      (m m' : Machine K.Pg) (v : HttpState) → Runs m → turn K A m ≡ some (v, m') → AfterTurn v m m'
  unfolding turn
  machine_turns m m' v r e =
      let o = Runs-Open m r in
      ground (arith, o.present, o.unanswered, o.kept, o.unclosed, o.texts, o.clients)

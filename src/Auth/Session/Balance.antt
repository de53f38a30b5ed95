-- ===== src/Auth/Session/Balance.antt =====
-- What a request of auth2/src/auth2.c has opened, closed, copied and freed.
use kore_io_websocket.Base.{ℕ, suc, ◌+◌, ◌≡◌, ◌≢◌, List, [], ◌∷◌, String, Option, none, some, arith}
use kore_io_websocket.Auth.Request.{
  error, Pgsql, Ustate, Request, Call, kore_pgsql_init, kore_pgsql_cleanup, kore_strdup, kore_free,
}
use kore_io_websocket.Auth.Session.{auth_session, auth_session_user, db_event}
use kore_io_websocket.Auth.Pages.{Assets, page, dashboard, login, auth_login, auth_logout}
use kore_io_websocket.Auth.Session.Steps.{
  Reach, arrives, validates, validates_user, moves, serves_page, serves_dashboard, shows_login,
  logs_in, logs_out,
}

abbrev pub opened : List Call → ℕ
opened [] = 0
opened (kore_pgsql_init ∷ cs) = suc (opened cs)
opened (_ ∷ cs) = opened cs

abbrev pub closed : List Call → ℕ
closed [] = 0
closed (kore_pgsql_cleanup ∷ cs) = suc (closed cs)
closed (_ ∷ cs) = closed cs

abbrev pub copied : List Call → ℕ
copied [] = 0
copied (kore_strdup name ∷ cs) = suc (copied cs)
copied (_ ∷ cs) = copied cs

abbrev pub freed : List Call → ℕ
freed [] = 0
freed (kore_free ∷ cs) = suc (freed cs)
freed (_ ∷ cs) = freed cs

module _ {Pg : Type 0} where
  abbrev pub held : Option (Ustate Pg) → ℕ
  held none = 0
  held (some st) = 1

  abbrev pub held_name : Option (Ustate Pg) → ℕ
  held_name none = 0
  held_name (some st) = elim (st.result_name) [ none ↦ 0 | some name ↦ 1 ]

  -- Each client that was opened is closed, save the one in the state.
  abbrev pub Balanced : Request Pg → Type 0
  Balanced r = opened r.calls ≡ closed r.calls + held r.state

module _ (K : Pgsql) where
  session-Balanced :
      (cookie : Option String) (r : Request K.Pg)
      → Balanced r
      → Balanced (auth_session K cookie r).1
  unfolding auth_session
  session-Balanced cookie r b = ground arith

  user-Balanced : (r : Request K.Pg) → Balanced r → Balanced (auth_session_user K r).1
  unfolding auth_session_user
  user-Balanced r b = ground arith

  event-Balanced :
      (p : K.Pg) (r r' : Request K.Pg) → db_event K p r ≡ some r' → Balanced r → Balanced r'
  unfolding db_event
  event-Balanced p r r' e b = ground arith

  -- A session whose client is not in the error state loses no name to `auth_session`: each copy is
  -- freed or still in the state.
  pub session_names :
      (cookie : String) (r : Request K.Pg) (st : Ustate K.Pg)
      → copied r.calls ≡ freed r.calls + held_name r.state
      → r.state ≡ some st
      → K.state st.p ≢ error
      → copied (auth_session K (some cookie) r).1.calls
        ≡ freed (auth_session K (some cookie) r).1.calls
          + held_name (auth_session K (some cookie) r).1.state
  unfolding auth_session
  session_names cookie r st b e sound = ground arith

  -- A session that is in the error state with a name leaves that name behind: its state is gone, and
  -- one copy more was made than freed.
  pub error_leaks_name :
      (cookie : String) (r : Request K.Pg) (st : Ustate K.Pg) (name : String)
      → copied r.calls ≡ freed r.calls + held_name r.state
      → r.state ≡ some st
      → K.state st.p ≡ error
      → st.result_name ≡ some name
      → ((auth_session K (some cookie) r).1.state ≡ none)
        × (copied (auth_session K (some cookie) r).1.calls
            ≡ suc (freed (auth_session K (some cookie) r).1.calls))
  unfolding auth_session
  error_leaks_name cookie r st name b e failed named = ground arith

  module _ (A : Assets) where
    page-Balanced : (r : Request K.Pg) → Balanced r → Balanced (page A r).1
    unfolding page
    page-Balanced r b = ground arith

    dashboard-Balanced : (r : Request K.Pg) → Balanced r → Balanced (dashboard A r).1
    unfolding dashboard
    dashboard-Balanced r b = ground arith

    login-Balanced : (r : Request K.Pg) → Balanced r → Balanced (login A r).1
    unfolding login
    login-Balanced r b = ground arith

    auth_login-Balanced : (r : Request K.Pg) → Balanced r → Balanced (auth_login A r).1
    unfolding auth_login
    auth_login-Balanced r b = ground arith

    logout-Balanced : (r : Request K.Pg) → Balanced r → Balanced (auth_logout r).1
    unfolding auth_logout
    logout-Balanced r b = ground arith

    -- At any time, a request has opened one more database client than it has closed if it has a state,
    -- and as many if it has none.
    pub clients_balance :
        (ps : List K.Pg) (r : Request K.Pg)
        → Reach K A ps r
        → opened r.calls ≡ closed r.calls + held r.state
    clients_balance ps r (arrives q fresh quiet) = ground arith
    clients_balance ps r (validates {ps = qs} {r = q} cookie m) =
        session-Balanced cookie q (clients_balance qs q m)
    clients_balance ps r (validates_user {ps = qs} {r = q} m) =
        user-Balanced q (clients_balance qs q m)
    clients_balance ps r (moves {ps = qs} {r = q} {r'} p m e) =
        event-Balanced p q r' e (clients_balance qs q m)
    clients_balance ps r (serves_page {ps = qs} {r = q} m) =
        page-Balanced q (clients_balance qs q m)
    clients_balance ps r (serves_dashboard {ps = qs} {r = q} m) =
        dashboard-Balanced q (clients_balance qs q m)
    clients_balance ps r (shows_login {ps = qs} {r = q} m) =
        login-Balanced q (clients_balance qs q m)
    clients_balance ps r (logs_in {ps = qs} {r = q} m) =
        auth_login-Balanced q (clients_balance qs q m)
    clients_balance ps r (logs_out {ps = qs} {r = q} m) = logout-Balanced q (clients_balance qs q m)

-- ===== src/Auth/Session/Origins.antt =====
-- Where the name of a session of auth2/src/auth2.c comes from.
use text.Mathlib.TextEquality.{eq_iff}
use kore_io_websocket.Base.{
  ◌≡◌, refl, sym, ap, ◌∙◌, ◌≢◌, ◌⊎◌, inl, inr, List, String, Option, none, some, arith, Memᴰ,
}
use kore_io_websocket.Auth.Request.{result, Pgsql, result_ok, Ustate, Request}
use kore_io_websocket.Auth.Session.{auth_session, auth_session_user, db_event, last_value, sessi}
use kore_io_websocket.Auth.Pages.{Assets, page, dashboard, login, auth_login, auth_logout}
use kore_io_websocket.Auth.Session.Steps.{
  Reach, arrives, validates, validates_user, moves, serves_page, serves_dashboard, shows_login,
  logs_in, logs_out,
}
use kore_io_websocket.Auth.Session.Verdicts.{session_admits}

module _ (K : Pgsql) where
  -- The database answered the session query at `p`, and `name` is in the last row.
  abbrev pub Answer : String → K.Pg → Type 0
  Answer name p =
      (K.state p ≡ result) × (K.conn_name p ≡ sessi) × (K.ntuples p ≢ 0) × (last_value K p ≡ name)

  abbrev pub name_of : Option (Ustate K.Pg) → Option String
  name_of none = none
  name_of (some st) = st.result_name

  session-name :
      (cookie : Option String) (r : Request K.Pg) (name : String)
      → name_of (auth_session K cookie r).1.state ≡ some name
      → name_of r.state ≡ some name
  unfolding auth_session
  session-name cookie r name h = ground arith

  user-name :
      (r : Request K.Pg) (name : String)
      → name_of (auth_session_user K r).1.state ≡ some name
      → name_of r.state ≡ some name
  unfolding auth_session_user
  user-name r name h = ground arith

  event-name :
      (p : K.Pg) (r r' : Request K.Pg) (name : String)
      → db_event K p r ≡ some r'
      → name_of r'.state ≡ some name
      → (name_of r.state ≡ some name) ⊎ Answer name p
  unfolding db_event
  event-name p r r' name e h = ground (arith, eq_iff sessi (K.conn_name p))

  module _ (A : Assets) where
    page-name :
        (r : Request K.Pg) (name : String)
        → name_of (page A r).1.state ≡ some name
        → name_of r.state ≡ some name
    unfolding page
    page-name r name h = ground arith

    dashboard-name :
        (r : Request K.Pg) (name : String)
        → name_of (dashboard A r).1.state ≡ some name
        → name_of r.state ≡ some name
    unfolding dashboard
    dashboard-name r name h = ground arith

    login-name : (r : Request K.Pg) → (login A r).1.state ≡ r.state
    unfolding login
    login-name r = ground arith

    auth_login-name : (r : Request K.Pg) → (auth_login A r).1.state ≡ r.state
    unfolding auth_login
    auth_login-name r = ground arith

    logout-name : (r : Request K.Pg) → (auth_logout r).1.state ≡ r.state
    unfolding auth_logout
    logout-name r = ground arith

    Reach-Answer :
        (ps : List K.Pg) (r : Request K.Pg) (name : String)
        → Reach K A ps r
        → name_of r.state ≡ some name
        → (p : K.Pg) × Memᴰ p ps × Answer name p
    Reach-Answer ps r name (arrives q fresh quiet) h = ground arith
    Reach-Answer ps r name (validates {ps = qs} {r = q} cookie m) h =
        Reach-Answer qs q name m (session-name cookie q name h)
    Reach-Answer ps r name (validates_user {ps = qs} {r = q} m) h =
        Reach-Answer qs q name m (user-name q name h)
    Reach-Answer ps r name (moves {ps = qs} {r = q} {r'} p m e) h =
        elim (event-name p q r' name e h) [
          | inl before ↦
              let old = Reach-Answer qs q name m before in (old.0, Memᴰ.tail old.1, old.2)
          | inr now ↦ (p, Memᴰ.head refl, now)
        ]
    Reach-Answer ps r name (serves_page {ps = qs} {r = q} m) h =
        Reach-Answer qs q name m (page-name q name h)
    Reach-Answer ps r name (serves_dashboard {ps = qs} {r = q} m) h =
        Reach-Answer qs q name m (dashboard-name q name h)
    Reach-Answer ps r name (shows_login {ps = qs} {r = q} m) h =
        Reach-Answer qs q name m (ap name_of (sym (login-name q)) ∙ h)
    Reach-Answer ps r name (logs_in {ps = qs} {r = q} m) h =
        Reach-Answer qs q name m (ap name_of (sym (auth_login-name q)) ∙ h)
    Reach-Answer ps r name (logs_out {ps = qs} {r = q} m) h =
        Reach-Answer qs q name m (ap name_of (sym (logout-name q)) ∙ h)

    -- Whatever has happened to a request since it came: if `auth_session` lets it pass with a cookie,
    -- the database has answered the session query with the text of that cookie in the last row.
    pub admitted_by_database :
        (ps : List K.Pg) (r : Request K.Pg) (cookie : String)
        → Reach K A ps r
        → (auth_session K (some cookie) r).0 ≡ result_ok
        → (p : K.Pg) × Memᴰ p ps × Answer cookie p
    admitted_by_database ps r cookie reach passed =
        let (st, here, through, named) = (session_admits K cookie r).0 passed in
        Reach-Answer ps r cookie reach (ap name_of here ∙ named)

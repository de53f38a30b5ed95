-- ===== src/Auth/Session/Steps.antt =====
-- The life of a request of auth2/src/auth2.c, from its arrival on: validators and pages in any order,
-- and the database between them.
use kore_io_websocket.Base.{◌≡◌, List, [], ◌∷◌, String, Option, none, some}
use kore_io_websocket.Auth.Request.{Pgsql, Request}
use kore_io_websocket.Auth.Session.{auth_session, auth_session_user, db_event}
use kore_io_websocket.Auth.Pages.{Assets, page, dashboard, login, auth_login, auth_logout}

module _ (K : Pgsql) (A : Assets) where
  -- The list holds what the database has moved the client on to, the latest first.
  pub data Reach : List K.Pg → Request K.Pg → Type 0 where
    arrives : (r : Request K.Pg) → r.state ≡ none → r.calls ≡ [] → Reach [] r
    validates :
        {ps : List K.Pg} {r : Request K.Pg} (cookie : Option String)
        → Reach ps r
        → Reach ps (auth_session K cookie r).1
    validates_user :
        {ps : List K.Pg} {r : Request K.Pg} → Reach ps r → Reach ps (auth_session_user K r).1
    moves :
        {ps : List K.Pg} {r r' : Request K.Pg} (p : K.Pg)
        → Reach ps r
        → db_event K p r ≡ some r'
        → Reach (p ∷ ps) r'
    serves_page : {ps : List K.Pg} {r : Request K.Pg} → Reach ps r → Reach ps (page A r).1
    serves_dashboard : {ps : List K.Pg} {r : Request K.Pg} → Reach ps r → Reach ps (dashboard A r).1
    shows_login : {ps : List K.Pg} {r : Request K.Pg} → Reach ps r → Reach ps (login A r).1
    logs_in : {ps : List K.Pg} {r : Request K.Pg} → Reach ps r → Reach ps (auth_login A r).1
    logs_out : {ps : List K.Pg} {r : Request K.Pg} → Reach ps r → Reach ps (auth_logout r).1

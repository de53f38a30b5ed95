-- ===== src/Auth/Pages/Answers.antt =====
-- What the pages of auth2/src/auth2.c answer.
use text.Mathlib.TextEquality.{eq_iff}
use kore_io_websocket.Base.{
  ℕ, suc, ◌≡◌, ◌↔◌, inl, inr, List, [], ◌∷◌, Option, none, some, arith, Option-cases,
}
use kore_io_websocket.Auth.Request.{
  Ustate, Request, Call, Method, method_get, method_post, method_other, http_response,
  http_response_header, http_response_cookie, cookie_flags_cleared,
}
use kore_io_websocket.Auth.Pages.{Assets, page, dashboard, login, auth_login, auth_logout}

-- How often the client was answered, and where it was sent on to.
abbrev pub answers : List Call → ℕ
answers [] = 0
answers (http_response status body ∷ cs) = suc (answers cs)
answers (_ ∷ cs) = answers cs

module _ {Pg : Type 0} (A : Assets) (r : Request Pg) where
  -- Each page and each form answers a request exactly once, whatever its method and arguments.
  pub pages_answer_once :
      (answers (page A r).1.calls ≡ suc (answers r.calls))
      × (answers (dashboard A r).1.calls ≡ suc (answers r.calls))
      × (answers (login A r).1.calls ≡ suc (answers r.calls))
      × (answers (auth_login A r).1.calls ≡ suc (answers r.calls))
      × (answers (auth_logout r).1.calls ≡ suc (answers r.calls))
  unfolding page dashboard login auth_login auth_logout
  pages_answer_once = (ground arith, ground arith, ground arith, ground arith, ground arith)

  -- The answer of a login that succeeds.
  abbrev pub Granted : Type 0
  Granted = (auth_login A r).1 ≡ record r {
    calls =
        http_response 302 (some "NULL")
        ∷ cookie_flags_cleared
        ∷ http_response_cookie "hicookie" "user_sess" "/"
        ∷ http_response_header "location" "/dashboard/"
        ∷ r.calls;
  }

  abbrev pub Globi : Type 0
  Globi = (r.method ≡ method_post) × (r.user ≡ some "globi") × (r.passphrase ≡ some "globi")

  only_globi : Granted → Globi
  unfolding auth_login
  only_globi h = elim (Option-cases r.user) [
    | inl e ↦ ground arith
    | inr (user, e) ↦ elim (Option-cases r.passphrase) [
      | inl f ↦ ground arith
      | inr (pass, f) ↦ ground (arith, eq_iff user "globi", eq_iff "globi" pass)
    ]
  ]

  globi_granted : Globi → Granted
  unfolding auth_login
  globi_granted h = ground (arith, eq_iff "globi" "globi")

  -- The form sends the client on with the session cookie exactly if it was posted with the name and
  -- the passphrase "globi".
  pub login_grants : Granted ↔ Globi
  unfolding auth_login
  login_grants = (only_globi, globi_granted)

  abbrev pub kept_by : Method → Option (Ustate Pg) → Option (Ustate Pg)
  kept_by method_get s = none
  kept_by method_post s = s
  kept_by method_other s = s

  -- A GET of `page` or `dashboard` leaves no state. Any other method keeps the state, with the database
  -- client that is in it.
  pub pages_keep :
      ((page A r).1.state ≡ kept_by r.method r.state)
      × ((dashboard A r).1.state ≡ kept_by r.method r.state)
  unfolding page dashboard
  pages_keep = (ground arith, ground arith)

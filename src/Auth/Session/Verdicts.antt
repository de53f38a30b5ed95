-- ===== src/Auth/Session/Verdicts.antt =====
-- Who passes the validators of auth2/src/auth2.c.
use text.Mathlib.TextEquality.{eq_iff}
use kore_io_websocket.Base.{
  ◌≡◌, ◌≢◌, ◌↔◌, inl, inr, Bool, true, false, String, Option, none, some, arith, Option-cases,
}
use kore_io_websocket.Auth.Request.{
  PgState, error, complete, Pgsql, KoreResult, result_ok, result_error, result_retry, Ustate,
  Request,
}
use kore_io_websocket.Auth.Session.{auth_session, auth_session_user, is_complete}

module _ (K : Pgsql) where
  -- The database is through with the request and gave the name `cookie`.
  abbrev pub Confirmed : String → Request K.Pg → Type 0
  Confirmed cookie r =
      (st : Ustate K.Pg) × (r.state ≡ some st)
      × (K.state st.p ≡ complete)
      × (st.result_name ≡ some cookie)

  complete_of : (s : PgState) → is_complete s ≡ true → s ≡ complete
  complete_of s h = ground arith

  passed :
      (cookie : String) (r : Request K.Pg)
      → (auth_session K (some cookie) r).0 ≡ result_ok
      → Confirmed cookie r
  unfolding auth_session
  passed cookie r h = elim (Option-cases r.state) [
    | inl e ↦ ground arith
    | inr (st, e) ↦ (
      st,
      e,
      ground arith,
      elim (Option-cases st.result_name) [
        | inl m ↦ ground arith
        | inr (name, m) ↦ ground (arith, eq_iff name cookie)
      ],
    )
  ]

  passes :
      (cookie : String) (r : Request K.Pg)
      → Confirmed cookie r
      → (auth_session K (some cookie) r).0 ≡ result_ok
  unfolding auth_session
  passes cookie r (st, e, c, n) = ground (arith, eq_iff cookie cookie)

  -- `auth_session` lets a request with a cookie pass exactly if the database is through and gave the
  -- cookie's text.
  pub session_admits :
      (cookie : String) (r : Request K.Pg)
      → ((auth_session K (some cookie) r).0 ≡ result_ok) ↔ Confirmed cookie r
  unfolding auth_session
  session_admits cookie r = (passed cookie r, passes cookie r)

  -- What a verdict of `auth_session` means for the state of the request.
  abbrev pub StateAfter : KoreResult → Request K.Pg → Request K.Pg → Type 0
  StateAfter result_ok r r' = r' ≡ r
  StateAfter result_error r r' = r'.state ≡ none
  StateAfter result_retry r r' = r'.state ≢ none

  -- A request with a cookie that passes is as it was, one that is refused has no state left, and one
  -- that has to be tried again keeps or gets a state.
  pub session_leaves :
      (cookie : String) (r : Request K.Pg)
      → StateAfter (auth_session K (some cookie) r).0 r (auth_session K (some cookie) r).1
  unfolding auth_session
  session_leaves cookie r = ground arith

  -- Before its first question to the database, or while the database is at work, a session waits.
  abbrev pub at_work : Option (Ustate K.Pg) → Bool
  at_work none = true
  at_work (some st) = elim (K.state st.p) [ complete ↦ false | error ↦ false | _ ↦ true ]

  -- `auth_session_user` refuses no request, and has one tried again exactly if it carries a cookie and
  -- the database is still to be asked or at work for it.
  pub user_never_refused :
      (r : Request K.Pg)
      → ((auth_session_user K r).0 ≢ result_error)
        × (((auth_session_user K r).0 ≡ result_retry)
            ↔ ((r.hicookie ≢ none) × (at_work r.state ≡ true)))
  unfolding auth_session_user
  user_never_refused r = (ground arith, (ground arith, ground arith))

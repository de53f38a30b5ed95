-- ===== src/Jobs/System/Touched.antt =====
-- What a query of websocket_13/src/websocket_13.c leaves alone.
use kore_io_websocket.Base.{
  ℕ, ◌+◌, Bool, ◌≡◌, refl, List, [], ◌∷◌, String, some, true, false, arith,
}
use kore_io_websocket.Jobs.Database.{Database}
use kore_io_websocket.Jobs.{
  World, Handle, Call, kore_pgsql_query, kore_pgsql_query_params, update, called, store, load,
}
use kore_io_websocket.Jobs.Sending.{after_query, after_setup, on_handle, db_query, db_query_params}
use kore_io_websocket.Jobs.System.{copies, frees, sum, copied, freed}

-- From `w` to `w'` only the client `a`, whose callback keeps its argument, and no copies.
pub record Touches {Pg : Type 0} (a : ℕ) (h : Handle Pg) (w w' : World Pg) : Type 0 where
  pub after : Handle Pg
  pub arg : after.arg ≡ h.arg
  pub handles : w'.handles ≡ update w.handles a (some after)
  pub extras : w'.hdlr_extra ≡ w.hdlr_extra
  pub boss : w'.boss ≡ w.boss
  pub copies : copied w'.trace ≡ copied w.trace
  pub frees : freed w'.trace ≡ freed w.trace

abbrev Quiet : List Call → Type 0
Quiet cs = (copied cs ≡ 0) × (freed cs ≡ 0)

sum-called :
    {Pg : Type 0} (f : Call → ℕ) (cs : List Call) (w : World Pg)
    → sum f (called cs w).trace ≡ sum f cs + sum f w.trace
sum-called f [] w = omega arith
sum-called f (c ∷ cs) w = omega (arith, sum-called f cs (record w { trace = c ∷ w.trace }))

handles-called :
    {Pg : Type 0} (cs : List Call) (w : World Pg)
    → ((called cs w).handles ≡ w.handles)
      × ((called cs w).hdlr_extra ≡ w.hdlr_extra)
      × ((called cs w).boss ≡ w.boss)
handles-called [] w = (refl, refl, refl)
handles-called (c ∷ cs) w = handles-called cs (record w { trace = c ∷ w.trace })

after_query-Quiet :
    {Pg : Type 0} (a : ℕ) (call : Call) (r : Pg × Bool)
    → Quiet (call ∷ [])
    → Quiet (after_query a call r).1
after_query-Quiet a call (p, true) q = q
after_query-Quiet a call (p, false) q = (omega (arith, q.0), omega (arith, q.1))

module _ (D : Database) where
  open D use {Pg}

  after_setup-Quiet :
      (a : ℕ) (name : String) (send : Pg → Pg × List Call) (r : Pg × Bool)
      → Quiet (send r.0).1
      → Quiet (after_setup D a name send r).1
  unfolding after_setup
  after_setup-Quiet a name send (p, true) q = (omega (arith, q.0), omega (arith, q.1))
  after_setup-Quiet a name send (p, false) q = ground arith

  worked :
      (a : ℕ) (work : Pg → Pg × List Call) (h : Handle Pg) (w : World Pg)
      → Quiet (work h.pg).1
      → (w' : World Pg) × (on_handle D a work (some h) w ≡ some w') × Touches a h w w'
  unfolding on_handle
  worked a work h w (q, r) =
      let left = work h.pg in
      let stored = store a (some (record h { pg = left.0 })) w in
      let same = handles-called left.1 stored in
      (
        called left.1 stored,
        refl,
        record {
          after = record h { pg = left.0 };
          arg = refl;
          handles = same.0;
          extras = same.1;
          boss = same.2;
          copies = omega (arith, q, sum-called copies left.1 stored);
          frees = omega (arith, r, sum-called frees left.1 stored);
        },
      )

  pub db_query-Touches :
      (a : ℕ) (name text : String) (h : Handle Pg) (w : World Pg)
      → load a w ≡ some h
      → (w' : World Pg) × (db_query D a name text w ≡ some w') × Touches a h w w'
  unfolding db_query
  db_query-Touches a name text h w e = rw e (
      worked a
        (λ (p : Pg).
          after_setup D a name
            (λ (q : Pg). after_query a (kore_pgsql_query a text) (D.query q text)) (D.setup p name))
        h w
        (after_setup-Quiet a name
          (λ (q : Pg). after_query a (kore_pgsql_query a text) (D.query q text)) (D.setup h.pg name)
          (after_query-Quiet a (kore_pgsql_query a text) (D.query (D.setup h.pg name).0 text)
            (refl, refl))))

  pub db_query_params-Touches :
      (a : ℕ) (name text v₁ v₂ : String) (h : Handle Pg) (w : World Pg)
      → load a w ≡ some h
      → (w' : World Pg) × (db_query_params D a name text v₁ v₂ w ≡ some w') × Touches a h w w'
  unfolding db_query_params
  db_query_params-Touches a name text v₁ v₂ h w e =
      let call = kore_pgsql_query_params a text v₁ v₂ in
      let send = λ (q : Pg). after_query a call (D.query_params q text v₁ v₂) in
      rw e (
        worked a (λ (p : Pg). after_setup D a name send (D.setup p name)) h w
          (after_setup-Quiet a name send (D.setup h.pg name) (
            after_query-Quiet a call (D.query_params (D.setup h.pg name).0 text v₁ v₂)
              (refl, refl))))

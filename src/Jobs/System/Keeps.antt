-- ===== src/Jobs/System/Keeps.antt =====
-- What stays true while websocket_13 runs, event by event.
use kore_io_websocket.Base.{
  ℕ, ◌+◌, ◌≡◌, ◌≢◌, refl, inl, inr, [], ◌∷◌, String, none, some, ◌==◌, Bool-cases, arith,
}
use kore_io_websocket.Jobs.Database.{Database}
use kore_io_websocket.Jobs.{
  World, Handle, to_connection, Call, update, called, store, load, q_name, q_subscribe, braced,
  kore_websocket_send, kore_pgsql_cleanup, kore_free_client,
}
use kore_io_websocket.Jobs.Sending.{tick}
use kore_io_websocket.Jobs.Connections.{
  connection_new, connection_del, set_extra, websocket_connect, websocket_message,
  websocket_disconnect,
}
use kore_io_websocket.Jobs.System.{
  Event, held, ticks, connects, says, leaves, copied, freed, copies, frees, Free, perform, Kept,
}
use kore_io_websocket.Jobs.System.Touched.{Touches, db_query-Touches, db_query_params-Touches}

-- No client is given up, and none gets another argument.
abbrev pub ArgsStay : {Pg : Type 0} → World Pg → World Pg → Type 0
ArgsStay {Pg} w w' =
    (q : ℕ) (g : Handle Pg)
    → w.handles q ≡ some g
    → (g' : Handle Pg) × (w'.handles q ≡ some g') × (g'.arg ≡ g.arg)

pub args_stay :
    {Pg : Type 0} (a : ℕ) (h after : Handle Pg) (w w' : World Pg)
    → w.handles a ≡ some h
    → after.arg ≡ h.arg
    → w'.handles ≡ update w.handles a (some after)
    → ArgsStay w w'
args_stay a h after w w' e same u q g f = elim (Bool-cases (a == q)) [
  | inl here ↦ (after, ground (arith, u), ground arith)
  | inr other ↦ (g, ground (arith, u), refl)
]

module _ (D : Database) (poll listener : ℕ) where
  open D use {Pg}

  -- Everything is kept where the clients stay, their ties stay, and the copies stay in balance.
  pub stay-Kept :
      (w w' : World Pg)
      → ArgsStay w w'
      → w'.hdlr_extra ≡ w.hdlr_extra
      → copied w'.trace ≡ freed w'.trace + held w'.boss
      → Kept D poll listener w
      → Kept D poll listener w'
  stay-Kept w w' stay ties b k =
      let (g, e, s) = stay poll k.poll_handle (ground (arith, k.polled)) in
      record {
        poll_handle = g;
        polled = ground (arith, k.polled);
        for_boss = ground (arith, k.for_boss);
        listening =
            let (h, f, l) = k.listening in
            let (h', f', l') = stay listener h (ground arith) in (h', ground arith, ground arith);
        linked = λ c n.
            let (h, f, l) = k.linked c (ground (arith, ties)) in
            let (h', f', l') = stay (w.hdlr_extra c) h f in
            (h', ground (arith, ties), ground arith);
        balanced = b;
      }

  pub Touches-Kept :
      (a : ℕ) (h : Handle Pg) (w w' : World Pg)
      → load a w ≡ some h
      → Touches a h w w'
      → Kept D poll listener w
      → Kept D poll listener w'
  Touches-Kept a h w w' e t k =
      stay-Kept w w' (args_stay a h t.after w w' (ground arith) t.arg t.handles) t.extras
        (ground (arith, k.balanced, t.copies, t.frees, t.boss)) k

  pub quiet-Kept :
      (call : Call) (w : World Pg)
      → copies call ≡ 0
      → frees call ≡ 0
      → Kept D poll listener w
      → Kept D poll listener (called (call ∷ []) w)
  quiet-Kept call w c f k =
      stay-Kept w (called (call ∷ []) w) (λ q g e. (g, e, refl)) refl
        (omega (arith, c, f, k.balanced)) k

  untied-Kept :
      (c : ℕ) (w : World Pg)
      → w.hdlr_extra c ≡ 0
      → Kept D poll listener w
      → Kept D poll listener (set_extra D c 0 w)
  untied-Kept c w z k = record {
    poll_handle = k.poll_handle;
    polled = k.polled;
    for_boss = k.for_boss;
    listening = k.listening;
    linked = λ d n. elim (Bool-cases (c == d)) [
      | inl same ↦ absurd (ground arith)
      | inr other ↦ let (h, e, l) = k.linked d (ground arith) in (h, ground arith, l)
    ];
    balanced = k.balanced;
  }

  left_with : ℕ → World Pg → World Pg
  left_with c w =
      let a = w.hdlr_extra c in
      set_extra D c 0 (called (kore_pgsql_cleanup a ∷ kore_free_client a ∷ []) (store a none w))

  left-Kept :
      (c : ℕ) (w : World Pg)
      → w.hdlr_extra c ≢ 0
      → Kept D poll listener w
      → Kept D poll listener (left_with c w)
  unfolding left_with
  left-Kept c w n k =
      let (h, e, l) = k.linked c n in
      record {
        poll_handle = k.poll_handle;
        polled = ground (arith, k.polled, k.for_boss);
        for_boss = k.for_boss;
        listening = let (g, f, m) = k.listening in (g, ground arith, m);
        linked = λ d m. elim (Bool-cases (c == d)) [
          | inl same ↦ absurd (ground arith)
          | inr other ↦ let (h', e', l') = k.linked d (ground arith) in (h', ground arith, l')
        ];
        balanced = omega (arith, k.balanced);
      }

  new_client-Kept :
      (c a : ℕ) (w : World Pg)
      → Free D a w
      → Kept D poll listener w
      → Kept D poll listener (connection_new D c a w)
  unfolding connection_new
  new_client-Kept c a w (n, f) k = record {
    poll_handle = k.poll_handle;
    polled = ground (arith, k.polled);
    for_boss = k.for_boss;
    listening = let (g, e, m) = k.listening in (g, ground arith, m);
    linked = λ d m. elim (Bool-cases (c == d)) [
      | inl same ↦ (record { pg = D.fresh; arg = to_connection c }, ground arith, ground arith)
      | inr other ↦ let (h', e', l') = k.linked d (ground arith) in (h', ground arith, l')
    ];
    balanced = omega (arith, k.balanced);
  }

  module _ (next_job report : String) where
    unfoldable pub Goes : Event Pg → World Pg → Type 0
    Goes e w =
        (w' : World Pg) × (perform D next_job report poll e w ≡ some w') × Kept D poll listener w'

    pub ticks-Kept : (w : World Pg) → Kept D poll listener w → Goes ticks w
    unfolding Goes perform tick
    ticks-Kept w k =
        let (w', e, t) =
          db_query_params-Touches D poll q_subscribe next_job (braced "jobbi") "1" k.poll_handle w
            k.polled in
        (w', ground (arith, k.polled), Touches-Kept poll k.poll_handle w w' k.polled t k)

    pub says-Kept :
        (c op : ℕ) (text : String) (w : World Pg) → Kept D poll listener w → Goes (says c op text) w
    unfolding Goes perform websocket_message
    says-Kept c op text w k =
        let v = called (kore_websocket_send c op text ∷ []) w in
        let kv = quiet-Kept (kore_websocket_send c op text) w refl refl k in
        elim (Bool-cases (w.hdlr_extra c == 0)) [
          | inl none_there ↦ (v, ground arith, kv)
          | inr there ↦
              let (h, e, l) = k.linked c (ground arith) in
              let loaded : load (w.hdlr_extra c) v ≡ some h = ground arith in
              let (w', f, t) =
                db_query-Touches D (w.hdlr_extra c) q_name
                  "select*from coders;update banners set alt='fucky'" h v loaded in
              (w', ground (arith, f), Touches-Kept (w.hdlr_extra c) h v w' loaded t kv)
        ]

    pub connects-Kept :
        (c a : ℕ) (w : World Pg) → Free D a w → Kept D poll listener w → Goes (connects c a) w
    unfolding Goes perform websocket_connect connection_new
    connects-Kept c a w (n, f) k =
        let h : Handle Pg = record { pg = D.fresh; arg = to_connection c } in
        let v = connection_new D c a w in
        let loaded : load a v ≡ some h = ground arith in
        let (w', e, t) =
          db_query-Touches D a q_name "update banners set alt='Chicago Bulls'" h v loaded in
        (w', ground (arith, e), Touches-Kept a h v w' loaded t (new_client-Kept c a w (n, f) k))

    pub leaves-Kept : (c : ℕ) (w : World Pg) → Kept D poll listener w → Goes (leaves c) w
    unfolding Goes perform websocket_disconnect connection_del left_with
    leaves-Kept c w k = elim (Bool-cases (w.hdlr_extra c == 0)) [
      | inl gone ↦ (set_extra D c 0 w, ground arith, untied-Kept c w (ground arith) k)
      | inr there ↦
          let (h, e, l) = k.linked c (ground arith) in
          (left_with c w, ground arith, left-Kept c w (ground arith) k)
    ]

-- ===== src/Soup/Letters/Arrivals.antt =====
-- What a new client of mediasoup/src/mediasoup.c does to the letters, on every path of
-- `websocket_connect` that comes to its end.
use kore_io_websocket.Base.{
  ℕ, suc, ◌≡◌, ◌≢◌, ◌⊎◌, inl, inr, List, ◌∷◌, false, String, none, some, arith, length,
  Option-cases,
}
use kore_io_websocket.Soup.Jansson.{Jansson}
use kore_io_websocket.Soup.Random.{random_u32}
use kore_io_websocket.Soup.World.{wait, we_can_work_it_out, Soup, Postman, Timer, World, ok, disarm}
use kore_io_websocket.Soup.Channel.{draw_id, id_lookup, unlink}
use kore_io_websocket.Soup.Channel.Ids.{draw_id_fresh}
use kore_io_websocket.Soup.Requests.Sending.{letter}
use kore_io_websocket.Soup.Server.{websocket_connect}

abbrev pub asked : World → ℕ → ℕ → ℕ → Soup
asked w room r c = record {
  conn = w.md_server;
  state = wait;
  id = r;
  in_id = room;
  error_text = none;
  name = some "worker.createRoom";
  arg = c;
  cb = some we_can_work_it_out;
  result_text = none;
}

taken_back : (l : Postman) (ls : List Postman) → unlink l.at (l ∷ ls) ≡ ls
unfolding unlink
taken_back l ls = ground arith

stopped : (t : Timer) (ts : List Timer) → disarm t.handle (t ∷ ts) ≡ ts
unfolding disarm
stopped t ts = ground arith

module _ (J : Jansson) (options : String) (c p db h : ℕ) (ms hs : List ℕ) (w v : World)
    (memory : w.mallocs ≡ p ∷ db ∷ ms) (timer : w.handles ≡ h ∷ hs)
    (returned : websocket_connect J options c w ≡ ok tt v) where
  pub others : (q : ℕ) → q ≢ p → v.soups q ≡ w.soups q
  unfolding websocket_connect
  others q apart = ground arith

  -- No letter was left behind.
  abbrev pub Quiet : Type 0
  Quiet = (v.letters ≡ w.letters) × (v.timers ≡ w.timers)

  abbrev pub Waiting : ℕ → ℕ → Type 0
  Waiting room r =
      (v.letters ≡ letter db r p h ∷ w.letters)
      × (v.timers ≡ record { handle = h; arg = p } ∷ w.timers)
      × (v.soups p ≡ some (asked w room r c))
      × (p ≢ 0)

  drawn :
      (room r : ℕ) (rs₁ rs₂ : List ℕ)
      → random_u32 w.rands ≡ some (room, rs₁)
      → draw_id (suc (length rs₁)) rs₁ w.letters ≡ some (r, rs₂)
      → Quiet ⊎ Waiting room r
  unfolding websocket_connect
  drawn room r rs₁ rs₂ a b =
      let letter_off : unlink db (letter db r p h ∷ w.letters) ≡ w.letters =
        taken_back (letter db r p h) w.letters in
      let timer_off : disarm h (record { handle = h; arg = p } ∷ w.timers) ≡ w.timers =
        stopped (record { handle = h; arg = p }) w.timers in
      ground (arith, letter_off, timer_off)

  no_number : random_u32 w.rands ≡ none → Quiet
  unfolding websocket_connect
  no_number a = ground arith

  no_id :
      (room : ℕ) (rs₁ : List ℕ)
      → random_u32 w.rands ≡ some (room, rs₁)
      → draw_id (suc (length rs₁)) rs₁ w.letters ≡ none
      → Quiet
  unfolding websocket_connect
  no_id room rs₁ a b = ground arith

  -- Either no letter is left behind, or one whose id no other letter has.
  pub arrival : Quiet ⊎ ((room : ℕ) × (r : ℕ) × Waiting room r × (id_lookup r w.letters ≡ false))
  arrival = elim (Option-cases (random_u32 w.rands)) [
    | inl a ↦ inl (no_number a)
    | inr ((room, rs₁), a) ↦ elim (Option-cases (draw_id (suc (length rs₁)) rs₁ w.letters)) [
      | inl b ↦ inl (no_id room rs₁ a b)
      | inr ((r, rs₂), b) ↦ elim (drawn room r rs₁ rs₂ a b) [
        | inl quiet ↦ inl quiet
        | inr waiting ↦ inr (room, r, waiting, (draw_id_fresh (suc (length rs₁)) rs₁ w.letters b).2)
      ]
    ]
  ]

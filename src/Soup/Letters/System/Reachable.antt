-- ===== src/Soup/Letters/System/Reachable.antt =====
-- The letters of mediasoup/src in every world that events lead to.
use kore_io_websocket.Base.{
  ℕ, ◌≡◌, refl, sym, List, ◌∷◌, String, none, arith, inl, inr, Bool-cases, Option-cases, Absent,
  Memᴰ,
}
use kore_io_websocket.Soup.Jansson.{Jansson}
use kore_io_websocket.Soup.World.{Soup, Timer, World, ok}
use kore_io_websocket.Soup.Requests.{
  find_letter, timer_fires, invoke_for_dummy, js_get_uint32, if_exist_key,
}
use kore_io_websocket.Soup.Requests.Responses.{response-Gone, response-Same, event-Same}
use kore_io_websocket.Soup.Server.{websocket_connect}
use kore_io_websocket.Soup.Letters.{place, handle_of, find_letter-mem}
use kore_io_websocket.Soup.Letters.Removal.{AllWait-others}
use kore_io_websocket.Soup.Letters.Arrivals.{arrival, others, asked}
use kore_io_websocket.Soup.Letters.System.{Step, connects, responds, expires, says, leaves}
use kore_io_websocket.Soup.Letters.System.Invariant.{
  Kept, Kept-Pending, Gone-Kept, apart-Kept, Same-Kept, owner-fresh, number-fresh, expiry,
  says-Same, leaves-letters, leaves-others,
}

module _ (J : Jansson) where
  connects-Kept :
      (options : String) (c p db h : ℕ) (ms hs : List ℕ) (w v : World)
      → w.mallocs ≡ p ∷ db ∷ ms
      → w.handles ≡ h ∷ hs
      → w.soups p ≡ none
      → Absent place db w.letters
      → Absent handle_of h w.timers
      → websocket_connect J options c w ≡ ok tt v
      → Kept w
      → Kept v
  connects-Kept options c p db h ms hs w v memory timer new a b e k =
      let same = others J options c p db h ms hs w v memory timer e in
      let free = owner-fresh w.soups p w.letters new k.waiting in
      elim (arrival J options c p db h ms hs w v memory timer e) [
        | inl quiet ↦ apart-Kept w v p quiet.0 quiet.1 same free k
        | inr (room, r, (there, armed, alive, real), unused) ↦ record {
          places = rw there (a, k.places);
          numbers = rw there (number-fresh r w.letters unused, k.numbers);
          owners = rw there (free, k.owners);
          handles = rw armed (b, k.handles);
          paired = rw (there, armed) ((refl, refl), k.paired);
          waiting = rw there (
            (asked w room r c, alive, refl, refl, real),
            AllWait-others w.soups v.soups p w.letters same free k.waiting,
          );
        }
      ]

  responds-Kept :
      (ch : ℕ) (root : J.Json) (w v : World)
      → invoke_for_dummy J ch root w ≡ ok tt v
      → Kept w
      → Kept v
  responds-Kept ch root w v e k = elim (Bool-cases (if_exist_key J root "id")) [
    | inr no_id ↦ Same-Kept w v (event-Same J w v ch root no_id e) k
    | inl has_id ↦ elim (Option-cases (find_letter (js_get_uint32 J root "id") w.letters)) [
      | inl unknown ↦ Same-Kept w v (response-Same J w v ch root unknown e) k
      | inr (du, found) ↦
          let (there, id) = find_letter-mem (js_get_uint32 J root "id") w.letters du found in
          let (s, h, pending) = Kept-Pending w du k there in
          Gone-Kept w v du h k there pending.armed
            (response-Gone J w v du s h ch root pending has_id (sym id) e)
    ]
  ]

  expires-Kept :
      (t : Timer) (w v : World) → Memᴰ t w.timers → timer_fires t w ≡ ok tt v → Kept w → Kept v
  expires-Kept t w v m e k =
      let (du, s, there, armed, fires) = expiry w t k m in
      Gone-Kept w v du t.handle k there armed (record {
        letters = ground (arith, fires, e);
        timers = ground (arith, fires, e);
        others = λ q apart. ground (arith, fires, e);
      })

  pub Step-Kept : (w v : World) → Step J w v → Kept w → Kept v
  Step-Kept w v (connects options c p db h ms hs memory timer new a b e) k =
      connects-Kept options c p db h ms hs w v memory timer new a b e k
  Step-Kept w v (responds ch root e) k = responds-Kept ch root w v e k
  Step-Kept w v (expires t m e) k = expires-Kept t w v m e k
  Step-Kept w v (says c op n text e) k = Same-Kept w v (says-Same J c op n text w v e) k
  Step-Kept w v (leaves c free e) k =
      let same = leaves-letters J c w v e in
      apart-Kept w v (w.hdlr_extra c) same.0 same.1 (leaves-others J c w v e) free k

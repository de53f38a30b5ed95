-- ===== src/Soup/Letters/System/Invariant.antt =====
-- What holds of the letters of mediasoup/src between two events.
use Prim.Native.String.{len}
use kore_io_websocket.Base.{
  ℕ, ◌≡◌, ◌≢◌, ap, ◌∙◌, List, [], ◌∷◌, false, String, Option, none, some, arith, Absent, Distinct,
  Memᴰ,
}
use kore_io_websocket.Soup.Jansson.{Jansson}
use kore_io_websocket.Soup.World.{Soup, Postman, Timer, World, ok}
use kore_io_websocket.Soup.Channel.{id_lookup, with_error}
use kore_io_websocket.Soup.Requests.{timer_fires}
use kore_io_websocket.Soup.Requests.Outcomes.{Pending, settled, timeout_settles}
use kore_io_websocket.Soup.Requests.Responses.{Gone, Same}
use kore_io_websocket.Soup.Clients.{websocket_message, websocket_disconnect}
use kore_io_websocket.Soup.Letters.{
  place, number, owner, handle_of, AllWait, Paired, AllWait-mem, find_letter-of_mem, timer-letter,
  letter-timer,
}
use kore_io_websocket.Soup.Letters.Removal.{
  Distinct-unlink, Distinct-disarm, Paired-remove, AllWait-remove, AllWait-others,
}

pub record Kept (w : World) : Type 0 where
  pub places : Distinct place w.letters
  pub numbers : Distinct number w.letters
  pub owners : Distinct owner w.letters
  pub handles : Distinct handle_of w.timers
  pub paired : Paired w.letters w.timers
  pub waiting : AllWait w.soups w.letters

-- A letter of the list can be found, and its timer stands in the list.
pub Kept-Pending :
    (w : World) (du : Postman)
    → Kept w
    → Memᴰ du w.letters
    → (s : Soup) × (h : ℕ) × Pending w du s h
Kept-Pending w du k m =
    let (s, alive, same, bound, real) = AllWait-mem w.soups du w.letters k.waiting m in
    let (t, there, armed) = letter-timer w.letters w.timers du k.paired m in
    (
      s,
      t.handle,
      record {
        addressed = find_letter-of_mem w.letters du k.numbers m;
        not_null = real;
        alive = alive;
        bound = bound;
        armed = armed;
        same_id = same;
      },
    )

pub Gone-Kept :
    (w v : World) (du : Postman) (h : ℕ)
    → Kept w
    → Memᴰ du w.letters
    → du.timer ≡ some h
    → Gone w v du h
    → Kept v
Gone-Kept w v du h k m armed g = record {
  places = rw g.letters (Distinct-unlink place du.at w.letters k.places);
  numbers = rw g.letters (Distinct-unlink number du.at w.letters k.numbers);
  owners = rw g.letters (Distinct-unlink owner du.at w.letters k.owners);
  handles = rw g.timers (Distinct-disarm h w.timers k.handles);
  paired =
      rw (g.letters, g.timers)
        (Paired-remove w.letters w.timers du h k.paired k.places k.handles m armed);
  waiting =
      rw g.letters
        (AllWait-remove w.soups v.soups du w.letters g.others k.places k.owners m k.waiting);
}

-- Letters and timers are the same, and at most one client has changed, which has no letter.
pub apart-Kept :
    (w v : World) (p : ℕ)
    → v.letters ≡ w.letters
    → v.timers ≡ w.timers
    → ((q : ℕ) → q ≢ p → v.soups q ≡ w.soups q)
    → Absent owner p w.letters
    → Kept w
    → Kept v
apart-Kept w v p a b same free k = record {
  places = rw a k.places;
  numbers = rw a k.numbers;
  owners = rw a k.owners;
  handles = rw b k.handles;
  paired = rw (a, b) k.paired;
  waiting = rw a (AllWait-others w.soups v.soups p w.letters same free k.waiting);
}

pub Same-Kept : (w v : World) → Same w v → Kept w → Kept v
Same-Kept w v e k = record {
  places = rw e.letters k.places;
  numbers = rw e.letters k.numbers;
  owners = rw e.letters k.owners;
  handles = rw e.timers k.handles;
  paired = rw (e.letters, e.timers) k.paired;
  waiting = rw (e.letters, e.soups) k.waiting;
}

pub owner-fresh :
    (f : ℕ → Option Soup) (p : ℕ) (ls : List Postman)
    → f p ≡ none
    → AllWait f ls
    → Absent owner p ls
owner-fresh f p [] e a = tt
owner-fresh f p (l ∷ ls) e a =
    let (s, alive, i, c, z) = a.0 in (ground (arith, alive), owner-fresh f p ls e a.1)

pub number-fresh : (r : ℕ) (ls : List Postman) → id_lookup r ls ≡ false → Absent number r ls
number-fresh r [] e = tt
number-fresh r (l ∷ ls) e = ground (arith, number-fresh r ls)

-- The letter whose timer it is, and what firing it does.
pub expiry :
    (w : World) (t : Timer)
    → Kept w
    → Memᴰ t w.timers
    → (du : Postman) × (s : Soup) × Memᴰ du w.letters
      × (du.timer ≡ some t.handle)
      × (timer_fires t w
          ≡ ok tt (
              settled w du
                (with_error "***TIMEOUT!***" s)
                t.handle
                "***TIMEOUT!***"
                (len "***TIMEOUT!***")))
expiry w t k m =
    let (du, there, armed, arg) = timer-letter w.letters w.timers t k.paired m in
    let (s, h, pending) = Kept-Pending w du k there in
    let same : h ≡ t.handle = ground (arith, pending.armed, armed) in
    let timer : t ≡ record { handle = h; arg = du.soupi } = ground (arith, same, arg) in
    (
      du,
      s,
      there,
      armed,
      ap (λ u. timer_fires u w) timer
          ∙ timeout_settles w du s h pending
          ∙ ap
              (λ n. ok tt (
                settled w du (with_error "***TIMEOUT!***" s) n "***TIMEOUT!***"
                  (len "***TIMEOUT!***")))
              same,
    )

module _ (J : Jansson) where
  pub says-Same :
      (c op len : ℕ) (text : Option String) (w v : World)
      → websocket_message J c op text len w ≡ ok tt v
      → Same w v
  unfolding websocket_message
  says-Same c op len text w v e = record {
    letters = ground arith;
    timers = ground arith;
    soups = ground arith;
  }

  pub leaves-letters :
      (c : ℕ) (w v : World)
      → websocket_disconnect c w ≡ ok tt v
      → (v.letters ≡ w.letters) × (v.timers ≡ w.timers)
  unfolding websocket_disconnect
  leaves-letters c w v e = ground arith

  pub leaves-others :
      (c : ℕ) (w v : World)
      → websocket_disconnect c w ≡ ok tt v
      → (q : ℕ) → q ≢ w.hdlr_extra c
      → v.soups q ≡ w.soups q
  unfolding websocket_disconnect
  leaves-others c w v e q apart = ground arith

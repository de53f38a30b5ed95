-- ===== src/Soup/Requests/Closing.antt =====
-- `pending_close` of mediasoup/src/channel.c, which stops what still waits.
use kore_io_websocket.Base.{◌≡◌, refl, List, [], ◌∷◌, some, arith}
use kore_io_websocket.Soup.World.{Postman, Timer, World, ok, disarm}
use kore_io_websocket.Soup.Requests.{pending_close, close_letters}

-- The timers of letters, in their order.
abbrev pub TimersOf : List Postman → List Timer → Type 0
TimersOf [] ts = ts ≡ []
TimersOf (l ∷ ls) [] = ⊥
TimersOf (l ∷ ls) (t ∷ ts) = (l.timer ≡ some t.handle) × TimersOf ls ts

close_letters_lem :
    (ls : List Postman) (ts : List Timer) (w : World)
    → TimersOf ls ts
    → w.timers ≡ ts
    → w.letters ≡ ls
    → close_letters ls w ≡ ok 0 (record w { letters = []; timers = [] })
unfolding close_letters disarm
close_letters_lem [] ts w m e f = ground arith
close_letters_lem (l ∷ ls) [] w m e f = elim m [ ]
close_letters_lem (l ∷ ls) (t ∷ ts) w m e f =
    let next = close_letters_lem ls ts (record w { letters = ls; timers = ts }) m.1 refl refl in
    ground (arith, next)

-- If each letter has its timer, `pending_close` ends without a fault, with neither letters nor timers.
pub pending_close_ends :
    (w : World)
    → TimersOf w.letters w.timers
    → pending_close w ≡ ok 0 (record w { letters = []; timers = [] })
unfolding pending_close
pending_close_ends w m = close_letters_lem w.letters w.timers w m refl refl

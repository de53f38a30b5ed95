-- ===== src/Soup/Examples/Numbers.antt =====
-- The theorems on numbers and names of mediasoup/src at concrete values of `rand()`.
use kore_io_websocket.Base.{ℕ, ◌+◌, ◌*◌, ◌/◌, ◌≤◌, ◌<◌, ◌≡◌, refl, ◌↔◌, List, [], ◌∷◌, some, arith}
use kore_io_websocket.Soup.Random.{rand_max, rand32, random_u32, first_below, limit_of, range_of}
use kore_io_websocket.Soup.Random.Bounds.{rand32_bounds, rand32_uniform}
use kore_io_websocket.Soup.Names.{event_name}
use kore_io_websocket.Soup.World.{Postman}
use kore_io_websocket.Soup.Channel.{draw_id}
use kore_io_websocket.Soup.Channel.Ids.{draw_id_total, now, later}

-- A die: 2147483647 is at the limit and is thrown again.
die : rand32 1 6 (2147483647 ∷ 9 ∷ 4 ∷ []) ≡ some (4, 4 ∷ [])
unfolding rand32 first_below limit_of range_of
die = refl

rand32_bounds_example : (1 ≤ 4) × (4 ≤ 6) × (1 < 3)
rand32_bounds_example =
    rand32_bounds 1 6 (2147483647 ∷ 9 ∷ 4 ∷ []) (omega arith) (omega arith) (omega arith) die

rand32_uniform_example :
    (rand32 1 6 (9 ∷ []) ≡ some (4, [])) ↔ ((k : ℕ) × (k < (rand_max + 1) / 6) × (9 ≡ k * 6 + 3))
rand32_uniform_example =
    rand32_uniform 1 6 9 4 (omega arith) (omega arith) (omega arith) (omega arith) (omega arith)

drawn : random_u32 (5 ∷ 6 ∷ []) ≡ some (10000005, 6 ∷ [])
unfolding random_u32 rand32 first_below limit_of range_of
drawn = refl

drawn_next : random_u32 (6 ∷ []) ≡ some (10000006, [])
unfolding random_u32 rand32 first_below limit_of range_of
drawn_next = refl

-- A letter waits under the first number, and the second is taken.
abbrev waiting : List Postman
waiting = record { at = 50; id = 10000005; soupi = 1; timer = some 7 } ∷ []

second_try : draw_id 3 (5 ∷ 6 ∷ []) waiting ≡ some (10000006, [])
unfolding draw_id random_u32 rand32 first_below limit_of range_of
second_try = refl

draw_id_total_example :
    (v : ℕ) × (rest : List ℕ) × (draw_id 3 (5 ∷ 6 ∷ []) waiting ≡ some (v, rest))
draw_id_total_example =
    draw_id_total 10000006 (5 ∷ 6 ∷ []) waiting (later 10000005 (6 ∷ []) drawn (now [] drawn_next))
      refl

room_name : event_name 12345678 ≡ event_name 12345678
room_name = refl

abbrev room_id : ℕ
room_id = 12345678

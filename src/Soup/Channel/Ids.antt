-- ===== src/Soup/Channel/Ids.antt =====
-- The ids that requests are sent under: `new_id` of mediasoup/src/channel.c.
use kore_io_websocket.Base.{
  ℕ, zero, suc, ◌≤◌, ◌<◌, ◌≡◌, List, false, some, length, arith, inl, inr, Option-cases, Bool-cases,
}
use kore_io_websocket.Soup.Random.{random_u32, id_min, id_max}
use kore_io_websocket.Soup.Random.Bounds.{random_u32_digits}
use kore_io_websocket.Soup.World.{Postman}
use kore_io_websocket.Soup.Channel.{id_lookup, draw_id}

-- A number that is drawn is of eight digits, so not 0, and no letter waits under it.
pub draw_id_fresh :
    (fuel : ℕ) (rands : List ℕ) (letters : List Postman) {r : ℕ} {rest : List ℕ}
    → draw_id fuel rands letters ≡ some (r, rest)
    → (id_min ≤ r) × (r ≤ id_max) × (id_lookup r letters ≡ false)
unfolding draw_id
draw_id_fresh zero rands letters e = cc
draw_id_fresh (suc fuel) rands letters {r} {rest} e = elim (Option-cases (random_u32 rands)) [
  | inl q ↦ absurd (cc (rw (q, draw_id) at e))
  | inr ((x, xs), q) ↦ elim (Bool-cases (id_lookup x letters)) [
    | inl taken ↦
        draw_id_fresh fuel xs letters {r = r} {rest = rest} (rw taken at (rw (q, draw_id) at e))
    | inr free ↦ ground (arith, random_u32_digits rands q, rw free at (rw (q, draw_id) at e))
  ]
]

-- `Draws r rands`: among the numbers that come out of `rands` one after the other there is `r`.
pub data Draws (r : ℕ) : List ℕ → Type 0 where
  now : {rands : List ℕ} (rest : List ℕ) → random_u32 rands ≡ some (r, rest) → Draws r rands
  later :
      {rands : List ℕ} (x : ℕ) (rest : List ℕ)
      → random_u32 rands ≡ some (x, rest)
      → Draws r rest
      → Draws r rands

draw_id_finds :
    (fuel r : ℕ) (rands : List ℕ) (letters : List Postman)
    → length rands < fuel
    → Draws r rands
    → id_lookup r letters ≡ false
    → (v : ℕ) × (rest : List ℕ) × (draw_id fuel rands letters ≡ some (v, rest))
unfolding draw_id
draw_id_finds zero r rands letters h d e = elim h [ ]
draw_id_finds (suc fuel) r rands letters h (now rest q) e = (r, rest, rw (q, draw_id) (rw e))
draw_id_finds (suc fuel) r rands letters h (later x rest q d) e =
    let shorter = (random_u32_digits rands q).2 in
    elim (Bool-cases (id_lookup x letters)) [
      | inl taken ↦
          let (v, more, found) = draw_id_finds fuel r rest letters (omega arith) d e in
          (v, more, rw (q, draw_id) (rw taken found))
      | inr free ↦ (x, rest, rw (q, draw_id) (rw free))
    ]

-- The loop ends: if a number that no letter has comes out of the values of `rand()`, the fuel, one more
-- than their number, is enough for some number to be returned.
pub draw_id_total :
    (r : ℕ) (rands : List ℕ) (letters : List Postman)
    → Draws r rands
    → id_lookup r letters ≡ false
    → (v : ℕ) × (rest : List ℕ) × (draw_id (suc (length rands)) rands letters ≡ some (v, rest))
draw_id_total r rands letters d e =
    draw_id_finds (suc (length rands)) r rands letters (omega arith) d e

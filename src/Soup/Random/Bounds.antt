-- ===== src/Soup/Random/Bounds.antt =====
-- The numbers that `rand32` gives: in range, and each as often as any other.
use kore_io_websocket.Base.{
  ℕ, ◌+◌, ◌-◌, ◌*◌, ◌/◌, ◌%◌, ◌^◌, ◌≤◌, ◌<◌, ◌≡◌, sym, ap, ◌∙◌, List, [], ◌∷◌, Option, none, some,
  length, leb, if◌then◌else◌, arith, ◌↔◌, Option-cases, inl, inr,
}
use native.Mathlib.Nat.{
  mod-lt, mod-eq_of_lt, div-add-mod', mul-add-mod_self_right, div-lt_iff_lt-mul, mul-le-mul_right,
  add-mul,
}
use kore_io_websocket.Soup.Random.{
  rand_max, range_of, limit_of, first_below, rand32, id_min, id_max, random_u32,
}

range_of_lem : (b e : ℕ) → b ≤ e → e < 2 ^ 32 → e - b < 2 ^ 32 - 1 → range_of b e ≡ e - b + 1
unfolding range_of
range_of_lem b e h k l = omega arith

first_below_lem :
    (limit : ℕ) (rands : List ℕ) {r : ℕ} {rs : List ℕ}
    → first_below limit rands ≡ some (r, rs)
    → (r < limit) × (length rs < length rands)
unfolding first_below
first_below_lem limit [] h = cc
first_below_lem limit (x ∷ xs) {r} {rs} h =
    ground (arith, first_below_lem limit xs {r = r} {rs = rs})

drawn :
    (begin end x v : ℕ) (rands xs rs : List ℕ)
    → begin ≤ end
    → end < 2 ^ 32
    → end - begin < 2 ^ 32 - 1
    → first_below (limit_of (range_of begin end)) rands ≡ some (x, xs)
    → ◌≡◌ {A = Option (ℕ × List ℕ)}
        (some ((x % range_of begin end + begin) % 2 ^ 32, xs))
        (some (v, rs))
    → (begin ≤ v) × (v ≤ end) × (length rs < length rands)
drawn begin end x v rands xs rs h k l q e =
    let small : x % range_of begin end < end - begin + 1 =
      rw (range_of_lem begin end h k l) (mod-lt x (omega arith)) in
    ground (arith, first_below_lem _ rands q)

-- A number that `rand32` returns lies between its bounds, also where the `uint32_t` sums could wrap,
-- if the bounds are in order and are not the whole range; and it uses up one value of `rand()` at least.
pub rand32_bounds :
    (begin end : ℕ) (rands : List ℕ) {v : ℕ} {rs : List ℕ}
    → begin ≤ end
    → end < 2 ^ 32
    → end - begin < 2 ^ 32 - 1
    → rand32 begin end rands ≡ some (v, rs)
    → (begin ≤ v) × (v ≤ end) × (length rs < length rands)
unfolding rand32
rand32_bounds begin end rands {v} {rs} h k l e =
    elim (Option-cases (first_below (limit_of (range_of begin end)) rands)) [
      | inl q ↦ absurd (cc (rw (q, rand32) at e))
      | inr ((x, xs), q) ↦ drawn begin end x v rands xs rs h k l q (rw (q, rand32) at e)
    ]

limit_of_lem : (range : ℕ) → 0 < range → limit_of range ≡ (rand_max + 1) / range * range
unfolding limit_of
limit_of_lem range h = omega (arith, div-add-mod' (rand_max + 1) range)

rand32_one :
    (begin end r : ℕ)
    → rand32 begin end (r ∷ []) ≡ (
        if leb (limit_of (range_of begin end)) r
        then none
        else some ((r % range_of begin end + begin) % 2 ^ 32, []))
unfolding rand32 first_below
rand32_one begin end r = ground arith

module _ (begin end r v : ℕ) (ordered : begin ≤ end) (word : end < 2 ^ 32)
    (fits : end - begin ≤ rand_max) (low : begin ≤ v) (high : v ≤ end) where
  abbrev range : ℕ
  range = end - begin + 1

  abbrev rounds : ℕ
  rounds = (rand_max + 1) / range

  range_lem : range_of begin end ≡ range
  range_lem = range_of_lem begin end ordered word (omega arith)

  limit_lem : limit_of range ≡ rounds * range
  limit_lem = limit_of_lem range (omega arith)

  one :
      rand32 begin end (r ∷ [])
      ≡ (if leb (rounds * range) r then none else some ((r % range + begin) % 2 ^ 32, []))
  one = rand32_one begin end r ∙ (rw (range_lem, limit_lem))

  forth :
      rand32 begin end (r ∷ []) ≡ some (v, [])
      → (k : ℕ) × (k < rounds) × (r ≡ k * range + (v - begin))
  forth h =
      let accepted = sym one ∙ h in
      let below : r < rounds * range = ground arith in
      let small : r % range < range = mod-lt r (omega arith) in
      let value : r % range + begin ≡ v = ground arith in
      (
        r / range,
        (div-lt_iff_lt-mul {k = range} (omega arith)).1 below,
        omega (arith, div-add-mod' r range),
      )

  back :
      (k : ℕ) × (k < rounds) × (r ≡ k * range + (v - begin))
      → rand32 begin end (r ∷ []) ≡ some (v, [])
  back (k, hk, hr) =
      let room : (k + 1) * range ≤ rounds * range = mul-le-mul_right range (omega arith) in
      let below : r < rounds * range = omega (arith, room, add-mul k 1 range) in
      let value : r % range ≡ v - begin =
        ap (λ n. n % range) hr
        ∙ mul-add-mod_self_right k range (v - begin)
        ∙ mod-eq_of_lt (omega arith) in
      one ∙ ground (arith, below, value)

  -- Every number from `begin` to `end` is equally likely, if there are at most RAND_MAX + 1 of them:
  -- the one value `r` of `rand()` gives the number `v` exactly if `r` is one of the
  -- (RAND_MAX + 1) / (end - begin + 1) values that are congruent to `v - begin`, all below the limit.
  pub rand32_uniform : (rand32 begin end (r ∷ []) ≡ some (v, [])) ↔ (
      (k : ℕ) × (k < (rand_max + 1) / (end - begin + 1))
      × (r ≡ k * (end - begin + 1) + (v - begin)))
  rand32_uniform = (forth, back)

-- `random_u32` gives a number of eight digits, never 0.
pub random_u32_digits :
    (rands : List ℕ) {v : ℕ} {rs : List ℕ}
    → random_u32 rands ≡ some (v, rs)
    → (id_min ≤ v) × (v ≤ id_max) × (length rs < length rands)
unfolding random_u32
random_u32_digits rands {v} {rs} e =
    rand32_bounds id_min id_max rands {v = v} {rs = rs} (omega arith) (omega arith) (omega arith) e

-- ===== src/Media/Numbers.antt =====
-- mediasoup_1/src/soup_utils.c. The text is that of `rand32` in mediasoup (Soup/Random), but for the
-- sign in the limit: the remainder is added and not taken away.
use kore_io_websocket.Base.{
  ℕ, ◌+◌, ◌-◌, ◌%◌, ◌^◌, ◌≤◌, ◌<◌, ◌≡◌, refl, List, [], ◌∷◌, Option, none, some, leb, if◌then◌else◌,
  arith, Bool-cases, inl, inr,
}
use native.Mathlib.Nat.{mod-lt, mod-eq_of_lt}
use kore_io_websocket.Soup.Random.{rand_max, range_of, first_below, id_min, id_max}

unfoldable pub limit_of : ℕ → ℕ
limit_of range = (rand_max + 1 + (rand_max + 1) % range) % 2 ^ 32

unfoldable pub rand32 : ℕ → ℕ → List ℕ → Option (ℕ × List ℕ)
unfolding limit_of
rand32 begin end rands = elim (first_below (limit_of (range_of begin end)) rands) [
  | none ↦ none
  | some (r, rs) ↦ some ((r % range_of begin end + begin) % 2 ^ 32, rs)
]

unfoldable pub random_u32 : List ℕ → Option (ℕ × List ℕ)
unfolding rand32
random_u32 rands = rand32 id_min id_max rands

never_below : (rands : List ℕ) → first_below 0 rands ≡ none
unfolding first_below
never_below [] = refl
never_below (r ∷ rs) = ground (arith, never_below rs)

taken : (limit r : ℕ) (rs : List ℕ) → r < limit → first_below limit (r ∷ rs) ≡ some (r, rs)
unfolding first_below
taken limit r rs h = ground arith

module _ (begin end : ℕ) (ordered : begin ≤ end) (word : end < 2 ^ 32)
    (fits : end - begin < 2 ^ 32 - 1) where
  abbrev range : ℕ
  range = end - begin + 1

  range_lem : range_of begin end ≡ range
  unfolding range_of
  range_lem = omega arith

  limit_small : end - begin ≤ rand_max → rand_max < limit_of range
  unfolding limit_of
  limit_small h =
      let positive : 0 < range = omega arith in omega (arith, mod-lt (rand_max + 1) (positive))

  limit_wide : rand_max < end - begin → limit_of range ≡ 0
  unfolding limit_of
  limit_wide h = let below : rand_max + 1 < range = omega arith in omega (arith, mod-eq_of_lt below)

  -- For bounds in order that are not the whole range of `uint32_t`, and a first value `r` that `rand()`
  -- can give: where the range has at most RAND_MAX + 1 numbers, the result is the remainder of `r`
  -- counted from `begin` and no value is ever rejected; where it has more, all are rejected for ever.
  pub rand32_remainder :
      (r : ℕ) (rs : List ℕ)
      → r ≤ rand_max
      → rand32 begin end (r ∷ rs)
        ≡ (if leb (end - begin) rand_max then some (r % (end - begin + 1) + begin, rs) else none)
  unfolding rand32
  rand32_remainder r rs h = elim (Bool-cases (leb (end - begin) rand_max)) [
    | inl small ↦ ground (
      arith,
      range_lem,
      taken (limit_of (range_of begin end)) r rs,
      limit_small,
      mod-lt r {m = range},
    )
    | inr wide ↦ ground (arith, range_lem, limit_wide, never_below (r ∷ rs))
  ]

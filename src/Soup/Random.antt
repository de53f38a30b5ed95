-- ===== src/Soup/Random.antt =====
-- mediasoup/src/mediasoup.c, `rand32` and `random_u32`: numbers in a range by rejection. The values of
-- `rand()` come as a list; `none` says that the list ended before a value was accepted.
pub mod Bounds
use kore_io_websocket.Base.{
  ℕ, suc, ◌+◌, ◌-◌, ◌*◌, ◌/◌, ◌%◌, ◌^◌, ◌≤◌, ◌<◌, ◌≡◌, refl, List, [], ◌∷◌, ◌++◌, Option, none,
  some, length, ltb, leb, ltb→lt, lt→ltb, if◌then◌else◌, arith, Bool-cases, inl, inr,
}

-- RAND_MAX of the C library.
abbrev pub rand_max : ℕ
rand_max = 2147483647

-- `(end - begin) + 1` in `uint32_t`
unfoldable pub range_of : ℕ → ℕ → ℕ
range_of begin end = ((end + 2 ^ 32 - begin) % 2 ^ 32 + 1) % 2 ^ 32

-- The `uint64_t` difference that is kept in a `uint32_t`. (C leaves a range of 0 undefined.)
unfoldable pub limit_of : ℕ → ℕ
limit_of range = (rand_max + 1 - (rand_max + 1) % range) % 2 ^ 32

-- `while (randVal >= limit) randVal = rand();`
unfoldable pub first_below : ℕ → List ℕ → Option (ℕ × List ℕ)
first_below limit [] = none
first_below limit (r ∷ rs) =
    let rest = first_below limit rs in if leb limit r then rest else some (r, rs)

unfoldable pub rand32 : ℕ → ℕ → List ℕ → Option (ℕ × List ℕ)
rand32 begin end rands = elim (first_below (limit_of (range_of begin end)) rands) [
  | none ↦ none
  | some (r, rs) ↦ some ((r % range_of begin end + begin) % 2 ^ 32, rs)
]

abbrev pub id_min : ℕ
id_min = 10000000

abbrev pub id_max : ℕ
id_max = 99999999

unfoldable pub random_u32 : List ℕ → Option (ℕ × List ℕ)
unfolding rand32
random_u32 rands = rand32 id_min id_max rands

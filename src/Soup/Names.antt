-- ===== src/Soup/Names.antt =====
-- The names of the events that close a room: mediasoup/src/room.c, `room_new`, and
-- mediasoup/src/channel.c, `invoke_for_dummy`, print an id with "%u" into `char stri_uint[9]`.
pub mod Laws
use kore_io_websocket.Base.{ℕ, zero, suc, ◌+◌, ◌/◌, ◌%◌, List, [], ◌∷◌, take, ◌==◌, if◌then◌else◌}

-- The decimal digits of `n` in front of `rest`, `fuel` of them at most.
unfoldable pub digits_onto : ℕ → ℕ → List ℕ → List ℕ
digits_onto zero n rest = rest
digits_onto (suc fuel) n rest =
    let longer = (48 + n % 10) ∷ rest in
    let more = digits_onto fuel (n / 10) longer in if n / 10 == 0 then longer else more

-- `snprintf` keeps eight characters and the NUL; a `uint32_t` has ten digits at most.
unfoldable pub event_name : ℕ → List ℕ
unfolding digits_onto
event_name id = take 8 (digits_onto 10 id [])

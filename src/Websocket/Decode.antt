-- ===== src/Websocket/Decode.antt =====
-- A peer's reading of a frame, after RFC 6455 section 5.2. It is not code of the repository: the
-- frames that `websocket_frame_build` makes are judged by it.
use kore_io_websocket.Base.{
  ℕ, ◌%◌, List, [], ◌∷◌, Option, none, some, Bool, take, drop, length, leb, ◌==◌, if◌then◌else◌,
}
use kore_io_websocket.Websocket.Wire.{Wire}

pub record Frame : Type 0 where
  pub fin : Bool
  pub opcode : ℕ
  pub masked : Bool
  pub payload : List ℕ

-- `n` bytes off the front, if they are there.
unfoldable pub split_off : ℕ → List ℕ → Option (List ℕ × List ℕ)
split_off n bytes = if leb n (length bytes) then some (take n bytes, drop n bytes) else none

unfoldable pub read_payload : ℕ → ℕ → ℕ → List ℕ → Option (Frame × List ℕ)
read_payload b0 b1 n bytes = elim (split_off n bytes) [
  | none ↦ none
  | some (payload, rest) ↦
      some (
        record { fin = leb 128 b0; opcode = b0 % 128; masked = leb 128 b1; payload = payload },
        rest,
      )
]

module _ (w : Wire) where
  unfoldable pub read_length : ℕ → List ℕ → Option (ℕ × List ℕ)
  read_length b1 bytes =
      if b1 % 128 == 126
      then elim (split_off 2 bytes) [ none ↦ none | some (l, rest) ↦ some (w.read16 l, rest) ]
      else if b1 % 128 == 127
      then elim (split_off 8 bytes) [ none ↦ none | some (l, rest) ↦ some (w.read64 l, rest) ]
      else some (b1 % 128, bytes)

  -- The first frame of a stream of bytes and what follows it. The opcode keeps the reserved bits.
  unfoldable pub decode : List ℕ → Option (Frame × List ℕ)
  decode [] = none
  decode (b0 ∷ []) = none
  decode (b0 ∷ b1 ∷ bytes) = elim (read_length b1 bytes) [
    | none ↦ none
    | some (n, rest) ↦ read_payload b0 b1 n rest
  ]

-- ===== src/Websocket/RoundTrip.antt =====
-- The frames of websocket_9/src/helper.c as a peer reads them.
use kore_io_websocket.Base.{
  ℕ, ◌+◌, ◌%◌, ◌^◌, ◌≤◌, ◌<◌, ◌≡◌, refl, ap, ◌∙◌, List, [], ◌++◌, true, false, some, take, length,
  length-append, length-take_of_le, take-append_length, drop-append_length, ltb, inl, inr,
  Bool-cases, ltb→lt, same_table, same_table_lem, arith,
}
use mathlib.Core.List.{append_assoc}
use kore_io_websocket.Websocket.Wire.{Wire}
use kore_io_websocket.Websocket.Frame.{
  length_code, set_fin, clear_mask, extended_length, frame_build,
}
use kore_io_websocket.Websocket.Decode.{split_off, read_payload, read_length, decode}

set_fin_table : same_table set_fin (λ x. x % 128 + 128) 256 ≡ true
unfolding same_table set_fin
set_fin_table = refl

set_fin_lem : (x : ℕ) → x < 256 → set_fin x ≡ x % 128 + 128
set_fin_lem x h = same_table_lem _ _ 256 x set_fin_table h

clear_mask_table : same_table clear_mask (λ x. x % 128) 256 ≡ true
unfolding same_table clear_mask
clear_mask_table = refl

clear_mask_lem : (x : ℕ) → x < 256 → clear_mask x ≡ x % 128
clear_mask_lem x h = same_table_lem _ _ 256 x clear_mask_table h

length_code-lt : (len : ℕ) → length_code len < 128
unfolding length_code
length_code-lt len = ground arith

-- The top bit that `clear_mask` clears is never set.
pub clear_mask-length_code : (len : ℕ) → clear_mask (length_code len) ≡ length_code len
clear_mask-length_code len = omega (
  arith,
  length_code-lt len,
  clear_mask_lem (length_code len) (omega (arith, length_code-lt len)),
)

split_off-append : (n : ℕ) (xs ys : List ℕ) → length xs ≡ n → split_off n (xs ++ ys) ≡ some (xs, ys)
unfolding split_off
split_off-append n xs ys h =
    rw (← h)
      (ground (arith, length-append xs ys, take-append_length xs ys, drop-append_length xs ys))

pub read_payload-frame :
    (op code len : ℕ) (payload rest : List ℕ)
    → op < 256
    → code < 128
    → length payload ≡ len
    → read_payload (set_fin op) code len (payload ++ rest)
      ≡ some (record { fin = true; opcode = op % 128; masked = false; payload = payload }, rest)
unfolding read_payload
read_payload-frame op code len payload rest ho hc hl =
    rw (split_off-append len payload rest hl, read_payload) (ground (arith, set_fin_lem op ho))

module _ (w : Wire) where
  -- The three forms of the length field.
  data LengthField (len : ℕ) : Type 0 where
    short :
        len ≤ 125
        → length_code len ≡ len
        → extended_length w (length_code len) len ≡ []
        → LengthField len
    medium :
        125 < len
        → len < 65535
        → length_code len ≡ 126
        → extended_length w (length_code len) len ≡ w.write16 len
        → LengthField len
    long :
        65535 ≤ len
        → length_code len ≡ 127
        → extended_length w (length_code len) len ≡ w.write64 len
        → LengthField len

  length_field : (len : ℕ) → len < 2 ^ 64 → LengthField len
  unfolding length_code extended_length
  length_field len h = elim (Bool-cases (ltb 125 len)) [
    | inl big ↦ elim (Bool-cases (ltb len 65535)) [
      | inl fits ↦
          medium (ground arith) (ground arith) (rw (big, fits))
            (rw (big, fits) (ap w.write16 (omega (arith, ltb→lt len 65535 fits))))
      | inr over ↦
          long (ground arith) (rw (big, over)) (rw (big, over) (ap w.write64 (omega arith)))
    ]
    | inr small ↦ short (ground arith) (rw small (ground arith)) (rw small (ground arith))
  ]

  read_length_short : (n : ℕ) (bytes : List ℕ) → n ≤ 125 → read_length w n bytes ≡ some (n, bytes)
  unfolding read_length
  read_length_short n bytes h = ground arith

  pub read_length_medium :
      (l rest : List ℕ) → length l ≡ 2 → read_length w 126 (l ++ rest) ≡ some (w.read16 l, rest)
  unfolding read_length
  read_length_medium l rest h = rw (split_off-append 2 l rest h)

  read_length_long :
      (l rest : List ℕ) → length l ≡ 8 → read_length w 127 (l ++ rest) ≡ some (w.read64 l, rest)
  unfolding read_length
  read_length_long l rest h = rw (split_off-append 8 l rest h)

  read_length-extended :
      (len : ℕ) (rest : List ℕ)
      → len < 2 ^ 64
      → read_length w (length_code len) (extended_length w (length_code len) len ++ rest)
        ≡ some (len, rest)
  read_length-extended len rest h = go (length_field len h)
    where
      go :
          LengthField len
          → read_length w (length_code len) (extended_length w (length_code len) len ++ rest)
            ≡ some (len, rest)
      go (short a b c) = rw (c, b) (read_length_short len rest a)
      go (medium a b c d) =
          rw (d, c)
            (read_length_medium (w.write16 len) rest (w.length-write16 len)
              ∙ ap (λ n. some (n, rest)) (w.read16-write16 len (omega arith)))
      go (long a b c) =
          rw (c, b)
            (read_length_long (w.write64 len) rest (w.length-write64 len)
              ∙ ap (λ n. some (n, rest)) (w.read64-write64 len h))

  pub decode-frame_build :
      (op : ℕ) (buf : List ℕ) (len : ℕ) (rest : List ℕ)
      → op < 256
      → len ≤ length buf
      → len < 2 ^ 64
      → decode w (frame_build w op buf len ++ rest)
        ≡ some
            (record { fin = true; opcode = op % 128; masked = false; payload = take len buf }, rest)
  unfolding frame_build decode
  decode-frame_build op buf len rest ho hl h = rw (clear_mask-length_code len) (
      rw (append_assoc (extended_length w (length_code len) len) (take len buf) rest) (
        rw (read_length-extended len (take len buf ++ rest) h, decode)
          (read_payload-frame op (length_code len) len (take len buf) rest ho (length_code-lt len)
            (length-take_of_le len buf hl))))

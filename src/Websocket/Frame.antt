-- ===== src/Websocket/Frame.antt =====
-- websocket_9/src/helper.c, `websocket_frame_build`: a frame of the server, which is not masked.
use kore_io_websocket.Base.{
  ℕ, ◌%◌, ◌^◌, bit_and, bit_or, List, [], ◌∷◌, ◌++◌, take, ltb, ◌==◌, if◌then◌else◌,
}
use kore_io_websocket.Websocket.Wire.{Wire}

-- WEBSOCKET_PAYLOAD_SINGLE, WEBSOCKET_PAYLOAD_EXTEND_1, WEBSOCKET_PAYLOAD_EXTEND_2, USHRT_MAX
abbrev pub payload_single : ℕ
payload_single = 125

abbrev pub payload_extend_1 : ℕ
payload_extend_1 = 126

abbrev pub payload_extend_2 : ℕ
payload_extend_2 = 127

abbrev pub ushrt_max : ℕ
ushrt_max = 65535

-- The value that `len_1` has before its top bit is cleared; `len_1 = len` keeps eight bits.
unfoldable pub length_code : ℕ → ℕ
length_code len =
    if ltb payload_single len
    then if ltb len ushrt_max then payload_extend_1 else payload_extend_2
    else len % 2 ^ 8

-- `op |= (1 << 7)`, over a byte.
unfoldable pub set_fin : ℕ → ℕ
set_fin op = bit_or op 128

-- `len_1 &= ~(1 << 7)`, over a byte.
unfoldable pub clear_mask : ℕ → ℕ
clear_mask len_1 = bit_and len_1 127

module _ (w : Wire) where
  -- The `switch`. `net_write16` takes a `u_int16_t` and `net_write64` a `u_int64_t`.
  unfoldable pub extended_length : ℕ → ℕ → List ℕ
  extended_length len_1 len =
      if ltb payload_single len_1
      then if len_1 == payload_extend_1
        then w.write16 (len % 2 ^ 16)
        else if len_1 == payload_extend_2
        then w.write64 (len % 2 ^ 64)
        else []
      else []

  unfoldable pub frame_build : ℕ → List ℕ → ℕ → List ℕ
  frame_build op buf len =
      let len_1 = clear_mask (length_code len) in
      set_fin op ∷ len_1 ∷ extended_length len_1 len ++ take len buf

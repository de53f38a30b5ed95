-- ===== src/Websocket/Wire.antt =====
-- What Kore gives to the code of this repository: the big-endian writers, with the
-- readers that a peer has for them, and the value of WEBSOCKET_BROADCAST_GLOBAL.
use kore_io_websocket.Base.{ℕ, ◌^◌, ◌<◌, ◌≡◌, List, length}

pub record Wire : Type 0 where
  pub broadcast_global : ℕ
  pub write16 : ℕ → List ℕ
  pub write64 : ℕ → List ℕ
  pub read16 : List ℕ → ℕ
  pub read64 : List ℕ → ℕ
  pub length-write16 : (n : ℕ) → length (write16 n) ≡ 2
  pub length-write64 : (n : ℕ) → length (write64 n) ≡ 8
  pub read16-write16 : (n : ℕ) → n < 2 ^ 16 → read16 (write16 n) ≡ n
  pub read64-write64 : (n : ℕ) → n < 2 ^ 64 → read64 (write64 n) ≡ n

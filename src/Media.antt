-- ===== src/Media.antt =====
-- The memory of mediasoup_1/src/kore_media.c, and the monad of its code. An address is a number, 0 is
-- NULL; `none` is a fault: a read through NULL, or of memory that was freed.
pub mod Table
pub mod Numbers
pub mod Rooms
pub mod Messages
pub mod Registry
mod Examples
use kore_io_websocket.Base.{ℕ, List, Option, none, some, ◌==◌, if◌then◌else◌}

-- struct room; `count` is the reference count of its `ref`, whose `free` is always `destroy_room`.
pub record Room : Type 0 where
  pub a : ℕ
  pub b : ℕ
  pub count : ℕ

module _ (T : Type 0) where
  -- struct media, without the callbacks: `on_new_room` is an event, and `notify` is never called.
  pub record Media : Type 0 where
    pub a : ℕ
    pub rooms : Option T
    pub count : ℕ

  -- `vid` is the global that numbers the rooms; the calls of `on_new_room` are kept, the latest first.
  pub record World : Type 0 where
    pub rooms : ℕ → Option Room
    pub medias : ℕ → Option Media
    pub vid : ℕ
    pub told : List ℕ

abbrev pub update {ℓ} : {A : Type ℓ} → (ℕ → A) → ℕ → A → ℕ → A
update f p v q = if p == q then v else f q

abbrev pub M : Type 0 → Type 0 → Type 0
M T A = World T → Option (A × World T)

module _ {T : Type 0} where
  abbrev pub pure : {A : Type 0} → A → M T A
  pure a w = some (a, w)

  abbrev pub and_then : {A B : Type 0} → Option (A × World T) → (A → M T B) → Option (B × World T)
  and_then none k = none
  and_then (some (a, w)) k = k a w

  infixl 5 ◌>>=◌ ◌>>◌
  abbrev pub ◌>>=◌ : {A B : Type 0} → M T A → (A → M T B) → M T B
  ◌>>=◌ m k w = and_then (m w) k

  abbrev pub ◌>>◌ : {A B : Type 0} → M T A → M T B → M T B
  m >> k = m >>= λ _. k

  abbrev pub read : {A : Type 0} → Option A → M T A
  read none w = none
  read (some a) w = some (a, w)

  -- `r->…` and `m->…`
  unfoldable pub load_room : ℕ → M T Room
  load_room p w = if p == 0 then none else read (w.rooms p) w

  unfoldable pub load_media : ℕ → M T (Media T)
  load_media p w = if p == 0 then none else read (w.medias p) w

  unfoldable pub store_room : ℕ → Option Room → M T (Unit {0})
  store_room p r w = some (tt, record w { rooms = update w.rooms p r })

  unfoldable pub store_media : ℕ → Option (Media T) → M T (Unit {0})
  store_media p m w = some (tt, record w { medias = update w.medias p m })

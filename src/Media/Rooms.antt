-- ===== src/Media/Rooms.antt =====
-- mediasoup_1/src/kore_media.c, the rooms of a media object with their reference counts
-- (mediasoup_1/src/ref_counter.h). A `gint` that is a key stands for its value; GLib's table reads a key
-- through the pointer that it keeps wherever it meets an equal key.
use kore_io_websocket.Base.{
  ℕ, ◌+◌, ◌-◌, ◌%◌, ◌^◌, List, [], ◌∷◌, Option, none, some, ltb, ◌==◌, if◌then◌else◌,
}
use kore_io_websocket.Media.{
  Room, Media, M, pure, ◌>>=◌, ◌>>◌, load_room, load_media, store_room, store_media,
}
use kore_io_websocket.Media.Table.{HashTable}

-- g_atomic_int_dec_and_test on a `gint`
abbrev pub one_less : ℕ → ℕ
one_less count = (count + 2 ^ 32 - 1) % 2 ^ 32

abbrev pub int_max : ℕ
int_max = 2147483647

module _ (G : HashTable) where
  open G use {T, new_full, find, insert, remove, entries}

  -- j_refcount_dec(&r->ref), with `destroy_room` at 0
  unfoldable pub room_dec : ℕ → M T (Unit {0})
  unfolding load_room store_room
  room_dec p = do
    r ← load_room p
    if one_less r.count == 0
        then store_room p none
        else store_room p (some (record r { count = one_less r.count }))

  unfoldable pub on_room_remove : ℕ → M T (Unit {0})
  unfolding load_room room_dec
  on_room_remove p w = if p == 0 then some (tt, w) else (do load_room p; room_dec p) w

  -- `p` is what `calloc` returns. The sum of an `int` at its maximum is undefined: `none`.
  room_with : ℕ → M T ℕ
  unfolding store_room
  room_with p w =
      if ltb w.vid int_max
      then (do store_room p (some (record { a = 10; b = w.vid + 1; count = 1 })); pure p)
          (record w { vid = w.vid + 1 })
      else none

  unfoldable pub room_new : ℕ → M T ℕ
  unfolding room_with
  room_new p w = if p == 0 then some (0, w) else room_with p w

  unfoldable pub media_new : ℕ → M T ℕ
  unfolding store_media
  media_new p w =
      if p == 0
      then some (0, w)
      else (do store_media p (some (record { a = 1; rooms = none; count = 1 })); pure p) w

  abbrev pub the_table : Option T → T
  the_table none = new_full
  the_table (some t) = t

  -- An equal key that is there is compared through its pointer; its value is given to the notifier.
  replace : Option (ℕ × ℕ) → M T (Unit {0})
  unfolding load_room on_room_remove
  replace none w = some (tt, w)
  replace (some (key, value)) w = (do load_room key; on_room_remove value) w

  tell : ℕ → M T (Unit {0})
  tell m w = some (tt, record w { told = m ∷ w.told })

  enter : ℕ → ℕ → Media T → Room → M T (Unit {0})
  unfolding store_media load_media replace tell
  enter m p media r = do
    store_media m (some (record media { rooms = some (insert (the_table media.rooms) r.b p p) }))
    replace (find (the_table media.rooms) r.b)
    load_media m
    tell m

  unfoldable pub add_room_to_media : ℕ → ℕ → M T (Unit {0})
  unfolding load_media load_room enter
  add_room_to_media m p w =
      if m == 0
      then some (tt, w)
      else if p == 0
      then some (tt, w)
      else (do media ← load_media m; r ← load_room p; enter m p media r) w

  abbrev pub looked_up : Option T → ℕ → Option (ℕ × ℕ)
  looked_up none k = none
  looked_up (some t) k = find t k

  found : Option (ℕ × ℕ) → M T ℕ
  unfolding load_room
  found none w = some (0, w)
  found (some (key, value)) w =
      (do load_room key; if value == 0 then pure 0 else (do load_room value; pure value)) w

  -- A media object without rooms has no table, and GLib gives NULL for the table NULL.
  unfoldable pub get_room : ℕ → ℕ → M T ℕ
  unfolding load_media found
  get_room m k w =
      if k == 0
      then some (0, w)
      else if m == 0
      then some (0, w)
      else (do media ← load_media m; found (looked_up media.rooms k)) w

  take_out : ℕ → ℕ → Media T → T → Option (ℕ × ℕ) → M T (Unit {0})
  unfolding load_room load_media store_media on_room_remove
  take_out m k media t none w = (do load_media m; pure tt) w
  take_out m k media t (some (key, value)) w =
      (do
        load_room key
        store_media m (some (record media { rooms = some (remove t k) }))
        on_room_remove value
        load_media m
        pure tt)
        w

  on_table : ℕ → ℕ → Media T → Option T → M T (Unit {0})
  unfolding take_out
  on_table m k media none w = some (tt, w)
  on_table m k media (some t) w = take_out m k media t (find t k) w

  unfoldable pub close_room : ℕ → ℕ → M T (Unit {0})
  unfolding load_media on_table
  close_room m k w =
      if m == 0 then some (tt, w) else (do media ← load_media m; on_table m k media media.rooms) w

  unfoldable pub remove_all : List (ℕ × (ℕ × ℕ)) → M T (Unit {0})
  unfolding on_room_remove
  remove_all [] w = some (tt, w)
  remove_all ((k, (key, value)) ∷ es) w = (do on_room_remove value; remove_all es) w

  abbrev pub entries_of : Option T → List (ℕ × (ℕ × ℕ))
  entries_of none = []
  entries_of (some t) = entries t

  unfoldable pub destroy_media : ℕ → M T (Unit {0})
  unfolding load_media store_media remove_all
  destroy_media m = do media ← load_media m; remove_all (entries_of media.rooms); store_media m none

  -- j_refcount_dec(&m->ref), with `destroy_media` at 0
  unfoldable pub media_dec : ℕ → M T (Unit {0})
  unfolding load_media store_media destroy_media
  media_dec m = do
    media ← load_media m
    if one_less media.count == 0
        then destroy_media m
        else store_media m (some (record media { count = one_less media.count }))
